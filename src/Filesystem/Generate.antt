-- ===== src/Filesystem/Generate.antt =====
-- fs_gen.c: write_file, descend and main. Files are given with their contents; the image is the
-- list of its bytes, and `none` is an exit with an error.
use rigcontrol.Common.{
  le32, ℕ, ◌+◌, ◌-◌, ◌*◌, ◌%◌, ◌^◌, Bool, true, false, ◌||◌, Option, none, some, List, [], ◌∷◌,
  ◌++◌, Bytes, codes, length, replicate, ltb, leb, ◌==◌, if◌then◌else◌, str_eq,
}
use rigcontrol.Filesystem.{
  compressed_fs_magic, Method, method_code, Entry, header_size, entry_size, maximum_size,
}

-- A file by its name, its path from the root, and its contents.
pub record File : Type 0 where
  pub name : Bytes
  pub pathname : Bytes
  pub contents : Bytes

-- What has been written behind the header, and the entries so far.
pub record Writer : Type 0 where
  pub body : Bytes
  pub entries : List Entry

abbrev pub position : Writer → ℕ
position w = header_size + length w.body

abbrev pub do_not_compress_suffixes : List Bytes
do_not_compress_suffixes =
    codes "gif"
    ∷ codes "gz"
    ∷ codes "jpg"
    ∷ codes "jpeg"
    ∷ codes "png"
    ∷ codes "tif"
    ∷ codes "tiff"
    ∷ codes "webp"
    ∷ []

-- `strrchr(name, '.')`: from the last dot on, the dot included.
unfoldable pub strrchr_dot : Bytes → Option Bytes
strrchr_dot [] = none
strrchr_dot (c ∷ s) = elim (strrchr_dot s) [
  | some later ↦ some later
  | none ↦ if c == b'.' then some (c ∷ s) else none
]

unfoldable pub is_listed : List Bytes → Bytes → Bool
unfolding str_eq
is_listed [] dot = false
is_listed (suffix ∷ rest) dot =
    let others = is_listed rest dot in if str_eq suffix dot then true else others

unfoldable pub has_suffix : Bytes → Bool
unfolding strrchr_dot is_listed
has_suffix name = elim (strrchr_dot name) [
  | none ↦ false
  | some dot ↦ is_listed do_not_compress_suffixes dot
]

abbrev pub entry_bytes : Entry → Bytes
entry_bytes e =
    le32 e.name_offset
    ++ (le32 e.data_offset
        ++ (le32 e.compressed_size ++ (le32 e.size ++ le32 (method_code e.method))))

unfoldable pub table_bytes : List Entry → Bytes
table_bytes [] = []
table_bytes (e ∷ es) = entry_bytes e ++ table_bytes es

abbrev pub header_bytes : ℕ → ℕ → Bytes
header_bytes number_of_files table_offset =
    compressed_fs_magic ++ (le32 number_of_files ++ le32 table_offset)

-- The bytes up to the next multiple of four; the file was extended with zeroes.
abbrev pub padding : ℕ → Bytes
padding at = if at % 4 == 0 then [] else replicate (4 - at % 4) 0

-- The end of `main`: the table, and the header that says where it is.
unfoldable pub finish : Writer → Option Bytes
unfolding table_bytes
finish w =
    let body = w.body ++ padding (position w) in
    let table_offset = header_size + length body in
    if ltb maximum_size (table_offset + entry_size * length w.entries)
    then none
    else some (header_bytes (length w.entries) table_offset ++ (body ++ table_bytes w.entries))

-- `compress` is what `compress2` gives where its output fits.
module _ (compress : Bytes → Bytes) where
  -- The name is stored with its null, then the data. `write_data` is at the position behind the name.
  unfoldable pub write_data : Bool → ℕ → Bytes → Writer → Option Writer
  write_data listed name_offset contents w =
      let size = length contents in
      let packed = compress contents in
      if size == 0
      then some (record w {
        entries =
            w.entries
            ++ (record {
              name_offset = name_offset;
              data_offset = 0;
              compressed_size = 0;
              size = 0;
              method = Method.zero_length;
            })
              ∷ [];
      })
      else if ltb size 100 || listed
      then (if leb maximum_size (position w + size)
          then none
          else some (record {
            body = w.body ++ contents;
            entries =
                w.entries
                ++ (record {
                  name_offset = name_offset;
                  data_offset = position w;
                  compressed_size = size;
                  size = size;
                  method = Method.none;
                })
                  ∷ [];
          }))
      else if leb (position w + length packed) maximum_size
      then some (record {
        body = w.body ++ packed;
        entries =
            w.entries
            ++ (record {
              name_offset = name_offset;
              data_offset = position w;
              compressed_size = length packed;
              size = size % 2 ^ 32;
              method = Method.zlib;
            })
              ∷ [];
      })
      else none

  unfoldable pub write_file : File → Writer → Option Writer
  unfolding write_data has_suffix
  write_file f w =
      write_data (has_suffix f.name) (position w) f.contents
        (record w { body = w.body ++ (f.pathname ++ 0 ∷ []) })

  unfoldable pub write_files : List File → Writer → Option Writer
  unfolding write_file
  write_files [] w = some w
  write_files (f ∷ fs) w = elim (write_file f w) [ none ↦ none | some w' ↦ write_files fs w' ]

  unfoldable pub fs_gen : List File → Option Bytes
  unfolding write_files finish
  fs_gen files = elim (write_files files (record { body = []; entries = [] })) [
    | none ↦ none
    | some w ↦ finish w
  ]
