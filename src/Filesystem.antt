-- ===== src/Filesystem.antt =====
-- components/generic_main/filesystem_generator/fs_gen.c writes a directory as the image of a
-- compressed file system; fs_read.c reads a file of such an image.
pub mod Generate
pub mod Read
pub mod Placed
pub mod Stored
pub mod Locate
pub mod Image
pub mod RoundTrip
pub mod Serve
pub mod Descend
pub mod Tree
pub mod Fits
mod Tests
use rigcontrol.Common.{
  ℕ, zero, suc, ◌+◌, ◌*◌, ◌/◌, ◌%◌, ◌^◌, List, [], ◌∷◌, ◌++◌, Bytes, codes, get_or, replicate,
}

abbrev pub compressed_fs_magic : Bytes
compressed_fs_magic =
    codes "(C) Algorithmic LLC <bruce@perens.com>. Commercial use requires paid license."
    ++ replicate 3 0

-- `enum compression_method`
pub data Method : Type 0 where
  none zero_length zlib : Method

abbrev pub method_code : Method → ℕ
method_code none = 0
method_code zero_length = 1
method_code zlib = 2

pub record Entry : Type 0 where
  pub name_offset : ℕ
  pub data_offset : ℕ
  pub compressed_size : ℕ
  pub size : ℕ
  pub method : Method

abbrev pub header_size : ℕ
header_size = 88

abbrev pub entry_size : ℕ
entry_size = 20

abbrev pub maximum_size : ℕ
maximum_size = 4 * 1024 * 1024
