-- ===== src/Filesystem/Image.antt =====
-- The whole image that fs_gen writes: every search of a path in it.
use rigcontrol.Common.{
  le32, word_of-le32, ◌+◌, ◌*◌, ◌≤◌, ◌<◌, ◌≡◌, refl, inl, inr, arith, Option, none, some, List, [],
  ◌∷◌, ◌++◌, Bytes, All, Free, length, ltb, length-append, Bool-cases, Option-cases,
}
use rigcontrol.Filesystem.{Entry, header_size, entry_size, maximum_size}
use rigcontrol.Filesystem.Generate.{
  File, Writer, position, write_files, table_bytes, header_bytes, padding, finish, fs_gen,
}
use rigcontrol.Filesystem.Read.{RawEntry, find_entry, number_of_files, table_offset}
use rigcontrol.Filesystem.Placed.{end-At}
use rigcontrol.Filesystem.Stored.{AllStored, AllStored-append, write_files-AllStored}
use rigcontrol.Filesystem.Locate.{Found, find_entry-Found, At-from}

length-table_bytes : (es : List Entry) → length (table_bytes es) ≡ entry_size * length es
unfolding table_bytes
length-table_bytes [] = refl
length-table_bytes (e ∷ es) = omega (arith, length-table_bytes es)

-- The search that both readers make.
unfoldable pub search_image : Bytes → Bytes → Option RawEntry
unfolding find_entry number_of_files table_offset
search_image image path = find_entry image (number_of_files image) (table_offset image) path

module _ (compress : Bytes → Bytes) where
  -- The header, what the writer has written, and the table.
  image_of : Writer → Bytes → Bytes
  unfolding table_bytes
  image_of w pad =
      header_bytes (length w.entries) (header_size + length (w.body ++ pad))
      ++ ((w.body ++ pad) ++ table_bytes w.entries)

  image_of-Found :
      (w : Writer) (files : List File) (pad path : Bytes)
      → header_size + length (w.body ++ pad) + entry_size * length w.entries ≤ maximum_size
      → All (λ f. Free 0 f.pathname) files
      → AllStored compress w.body w.entries files
      → Found compress (image_of w pad) path files (search_image (image_of w pad) path)
  unfolding search_image image_of number_of_files table_offset
  image_of-Found w files pad path small free all =
      let table = table_bytes w.entries in
      let body = w.body ++ pad in
      let n = length w.entries in
      let t = header_size + length body in
      let h = header_bytes n t in
      let number : number_of_files (image_of w pad) ≡ n =
        word_of-le32 n (le32 t ++ (body ++ table)) (omega (arith, small)) in
      let offset : table_offset (image_of w pad) ≡ t =
        word_of-le32 t (body ++ table) (omega (arith, small)) in
      let stored =
        AllStored-append compress body table w.entries files
          (AllStored-append compress w.body pad w.entries files all) in
      let size : length (body ++ table) < maximum_size =
        omega (arith, length-append body table, length-table_bytes w.entries, small) in
      rw (number, offset)
        (find_entry-Found compress h (body ++ table) refl w.entries files t path size free stored (
          At-from compress table h (length body) t (body ++ table) refl refl
            (end-At body table (length body) refl)))

  -- Every path is searched for successfully in the image that fs_gen writes.
  pub fs_gen-Found :
      (files : List File) (image path : Bytes)
      → All (λ f. Free 0 f.pathname) files
      → fs_gen compress files ≡ some image
      → Found compress image path files (search_image image path)
  unfolding fs_gen finish image_of AllStored search_image
  fs_gen-Found files image path free made =
      elim (Option-cases (write_files compress files (record { body = []; entries = [] }))) [
        | inl n ↦ absurd (no_image (rw (n, fs_gen) at made))
        | inr (w, e) ↦ finish-Found w e (rw (e, fs_gen) at made)
      ]
    where
      no_image : Path (Option Bytes) none (some image) → ⊥
      no_image p = cc

      finish-Found :
          (w : Writer)
          → write_files compress files (record { body = []; entries = [] }) ≡ some w
          → finish w ≡ some image
          → Found compress image path files (search_image image path)
      finish-Found w e f =
          let pad = padding (position w) in
          elim (Bool-cases (
            ltb maximum_size
              (header_size + length (w.body ++ pad) + entry_size * length w.entries))) [
                | inl k ↦ absurd (no_image (rw (k, finish) at f))
                | inr k ↦ rw (← image-eq (rw (k, finish) at f)) (
                    image_of-Found w files pad path (ground (arith, k)) free (
                      write_files-AllStored compress files [] (record { body = []; entries = [] }) w
                        tt e))
              ]
        where
          image-eq :
              Path (Option Bytes) (some (image_of w (padding (position w)))) (some image)
              → image_of w (padding (position w)) ≡ image
          image-eq p = cc
