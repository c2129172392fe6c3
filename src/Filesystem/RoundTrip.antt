-- ===== src/Filesystem/RoundTrip.antt =====
-- What fs_gen writes, fs_read reads.
use rigcontrol.Common.{◌≡◌, ◌∙◌, refl, sym, ap, Option, some, List, ◌++◌, Bytes, All, Free, length}
use rigcontrol.Filesystem.{Entry, header_size}
use rigcontrol.Filesystem.Generate.{File, fs_gen}
use rigcontrol.Filesystem.Read.{RawEntry, read_file, read_found, fs_read}
use rigcontrol.Filesystem.Placed.{take-At}
use rigcontrol.Filesystem.Stored.{Data, empty, plain, packed}
use rigcontrol.Filesystem.Locate.{raw, lookup, Found, missing, present, At-from}
use rigcontrol.Filesystem.Image.{search_image, fs_gen-Found}

module _ (compress decompress : Bytes → Bytes) where
  read_file-Data :
      (h body : Bytes) (e : Entry) (contents : Bytes)
      → ((x : Bytes) → decompress (compress x) ≡ x)
      → length h ≡ header_size
      → Data compress body e contents
      → read_file decompress (h ++ body) (raw compress e) ≡ contents
  unfolding read_file
  read_file-Data h body e contents inverse eh (empty c m d p z) = rw m (sym c)
  read_file-Data h body e contents inverse eh (plain k a d m z p) =
      rw (m, z)
        (take-At contents e.data_offset (h ++ body)
          (At-from compress contents h k e.data_offset body eh d a))
  read_file-Data h body e contents inverse eh (packed k a d m z p) =
      rw (m, p)
        (ap decompress (
            take-At (compress contents) e.data_offset (h ++ body)
              (At-from compress (compress contents) h k e.data_offset body eh d a))
          ∙ inverse contents)

  read_found-Found :
      (image path : Bytes) (files : List File) (result : Option RawEntry)
      → ((x : Bytes) → decompress (compress x) ≡ x)
      → Found compress image path files result
      → read_found decompress image result ≡ lookup path files
  unfolding read_found
  read_found-Found image path files result inverse (missing r l) = rw (r, l) refl
  read_found-Found image path files result inverse (present e c h body r l eh i d) =
      rw (r, l, i) (ap some (read_file-Data h body e c inverse eh d))

  -- What fs_gen writes, fs_read reads: a path gives the contents of the first file of that path, or is
  -- not found if there is none, if decompressing undoes compressing and no path holds a null.
  pub fs_read-fs_gen :
      (files : List File) (image path : Bytes)
      → ((x : Bytes) → decompress (compress x) ≡ x)
      → All (λ f. Free 0 f.pathname) files
      → fs_gen compress files ≡ some image
      → fs_read decompress image path ≡ lookup path files
  unfolding fs_read search_image
  fs_read-fs_gen files image path inverse free made =
      read_found-Found image path files _ inverse (fs_gen-Found compress files image path free made)
