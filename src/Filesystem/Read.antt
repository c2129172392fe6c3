-- ===== src/Filesystem/Read.antt =====
-- fs_read.c: main and read_file, on the bytes of an image.
use rigcontrol.Common.{
  word_of, ℕ, zero, suc, ◌+◌, Option, none, some, Bytes, take, drop, [], ◌==◌, if◌then◌else◌,
  str_eq, c_string,
}
use rigcontrol.Filesystem.{entry_size}

-- An entry as it stands in the table.
pub record RawEntry : Type 0 where
  pub name_offset : ℕ
  pub data_offset : ℕ
  pub compressed_size : ℕ
  pub size : ℕ
  pub method : ℕ

unfoldable pub entry_at : Bytes → ℕ → RawEntry
unfolding word_of
entry_at image at = record {
  name_offset = word_of (drop at image);
  data_offset = word_of (drop (at + 4) image);
  compressed_size = word_of (drop (at + 8) image);
  size = word_of (drop (at + 12) image);
  method = word_of (drop (at + 16) image);
}

-- The name at an offset, up to its null.
unfoldable pub name_at : Bytes → ℕ → Bytes
unfolding c_string
name_at image at = c_string (drop at image)

-- The loop over the entries: the first one of the path.
unfoldable pub find_entry : Bytes → ℕ → ℕ → Bytes → Option RawEntry
unfolding entry_at name_at str_eq
find_entry image zero at path = none
find_entry image (suc n) at path =
    let e = entry_at image at in
    let rest = find_entry image n (at + entry_size) path in
    if str_eq (name_at image e.name_offset) path then some e else rest

-- `header->number_of_files` and `header->table_offset`
unfoldable pub number_of_files : Bytes → ℕ
unfolding word_of
number_of_files image = word_of (drop 80 image)

unfoldable pub table_offset : Bytes → ℕ
unfolding word_of
table_offset image = word_of (drop 84 image)

-- `decompress` is what `tinfl_decompress_mem_to_callback` hands to the callback.
module _ (decompress : Bytes → Bytes) where
  unfoldable pub read_file : Bytes → RawEntry → Bytes
  read_file image e =
      if e.method == 1
      then []
      else if e.method == 0
      then take e.size (drop e.data_offset image)
      else if e.method == 2
      then decompress (take e.compressed_size (drop e.data_offset image))
      else []

  -- What is written to the output; `none` is "not found".
  unfoldable pub read_found : Bytes → Option RawEntry → Option Bytes
  unfolding read_file
  read_found image none = none
  read_found image (some e) = some (read_file image e)

  unfoldable pub fs_read : Bytes → Bytes → Option Bytes
  unfolding find_entry read_found number_of_files table_offset
  fs_read image path =
      read_found image (find_entry image (number_of_files image) (table_offset image) path)
