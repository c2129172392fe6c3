-- ===== src/Filesystem/Fits.antt =====
-- When fs_gen writes an image, and which files it compresses.
use rigcontrol.Common.{
  ℕ, ◌+◌, ◌-◌, ◌*◌, ◌%◌, ◌≤◌, ◌<◌, ◌≡◌, ◌∙◌, refl, ap, inl, inr, arith, Bool, false, ◌||◌, Option,
  some, List, [], ◌∷◌, ◌++◌, Bytes, length, ltb, leb, ◌==◌, length-append, length-replicate,
  Bool-cases, Option-cases,
}
use rigcontrol.Filesystem.{header_size, entry_size, maximum_size}
use rigcontrol.Filesystem.Generate.{
  File, Writer, position, strrchr_dot, is_listed, has_suffix, write_data, write_file, write_files,
  padding, header_bytes, table_bytes, finish, fs_gen,
}

module _ (compress : Bytes → Bytes) where
  -- A file's part of the image, at most: its name, and its contents stored or compressed.
  abbrev pub room : File → ℕ
  room f = length f.pathname + 1 + (length f.contents + length (compress f.contents))

  abbrev pub rooms : List File → ℕ
  rooms [] = 0
  rooms (f ∷ fs) = room f + rooms fs

  abbrev Wrote : Writer → ℕ → Option Writer → Type 0
  Wrote w more result =
      (w' : Writer) × (result ≡ some w')
      × (length w'.body ≤ length w.body + more)
      × (length w'.entries ≡ length w.entries + 1)

  write_data-Wrote :
      (listed : Bool) (n : ℕ) (contents : Bytes) (w : Writer)
      → position w + (length contents + length (compress contents)) < maximum_size
      → Wrote w
          (length contents + length (compress contents))
          (write_data compress listed n contents w)
  unfolding write_data
  write_data-Wrote listed n contents w h = elim (Bool-cases (length contents == 0)) [
    | inl e ↦ rw e (_, refl, omega arith, length-append w.entries _)
    | inr e ↦ elim (Bool-cases (ltb (length contents) 100 || listed)) [
      | inl k ↦ elim (Bool-cases (leb maximum_size (position w + length contents))) [
        | inl j ↦ absurd (ground (arith, h, j))
        | inr j ↦
            rw (e, k, j)
              (_, refl, omega (arith, length-append w.body contents), length-append w.entries _)
      ]
      | inr k ↦ elim (Bool-cases (leb (position w + length (compress contents)) maximum_size)) [
        | inr j ↦ absurd (ground (arith, h, j))
        | inl j ↦
            rw (e, k, j)
              (
                _,
                refl,
                omega (arith, length-append w.body (compress contents)),
                length-append w.entries _,
              )
      ]
    ]
  ]

  write_file-Wrote :
      (f : File) (w : Writer)
      → position w + room f < maximum_size
      → Wrote w (room f) (write_file compress f w)
  unfolding write_file
  write_file-Wrote f w h =
      let named : Writer = record w { body = w.body ++ (f.pathname ++ 0 ∷ []) } in
      let size : length named.body ≡ length w.body + (length f.pathname + 1) =
        length-append w.body (f.pathname ++ 0 ∷ [])
        ∙ ap (λ n. length w.body + n) (length-append f.pathname (0 ∷ [])) in
      let (w', e, b, n) =
        write_data-Wrote (has_suffix f.name) (position w) f.contents named
          (omega (arith, size, h)) in
      (w', e, omega (arith, b, size), n)

  write_files-Wrote :
      (fs : List File) (w : Writer)
      → position w + rooms fs < maximum_size
      → (w' : Writer) × (write_files compress fs w ≡ some w')
        × (length w'.body ≤ length w.body + rooms fs)
        × (length w'.entries ≡ length w.entries + length fs)
  unfolding write_files
  write_files-Wrote [] w h = (w, refl, omega arith, omega arith)
  write_files-Wrote (f ∷ fs) w h =
      let (v, e, b, n) = write_file-Wrote f w (omega (arith, h)) in
      let (w', e', b', n') = write_files-Wrote fs v (omega (arith, h, b)) in
      (w', rw (e, write_files) e', omega (arith, b, b'), omega (arith, n, n'))

  length-padding_le : (at : ℕ) → length (padding at) ≤ 3
  length-padding_le at = elim (Bool-cases (at % 4 == 0)) [
    | inl e ↦ rw e (omega arith)
    | inr e ↦
        let positive : 0 < at % 4 = ground (arith, e) in
        rw e (omega (arith, length-replicate {A = ℕ} (4 - at % 4) 0, positive))
  ]

  finish_fits :
      (w : Writer)
      → header_size + length (w.body ++ padding (position w)) + entry_size * length w.entries
        ≤ maximum_size
      → (image : Bytes) × (finish w ≡ some image)
  unfolding finish
  finish_fits w h =
      let body = w.body ++ padding (position w) in
      let size = header_size + length body in
      let fits : ltb maximum_size (size + entry_size * length w.entries) ≡ false =
        ground (arith, h) in
      (
        header_bytes (length w.entries) size ++ (body ++ table_bytes w.entries),
        rw (fits, finish) refl,
      )

  -- fs_gen writes an image of every list of files for which the names, the contents stored and
  -- compressed, a table entry for each, the header and three bytes stay below the maximum size.
  pub fs_gen_fits :
      (files : List File)
      → header_size + rooms files + 3 + entry_size * length files < maximum_size
      → (image : Bytes) × (fs_gen compress files ≡ some image)
  unfolding fs_gen finish
  fs_gen_fits files h =
      let (w, e, b, n) =
        write_files-Wrote files (record { body = []; entries = [] }) (omega (arith, h)) in
      let pad = length-padding_le (position w) in
      let (image, done) =
        finish_fits w (omega (arith, h, b, n, pad, length-append w.body (padding (position w)))) in
      (image, rw (e, fs_gen) done)

-- What strrchr finds starts with the dot.
strrchr_dot-dot :
    (name dot : Bytes) → strrchr_dot name ≡ some dot → (rest : Bytes) × (dot ≡ b'.' ∷ rest)
unfolding strrchr_dot
strrchr_dot-dot [] dot h = cc
strrchr_dot-dot (c ∷ s) dot h = elim (Option-cases (strrchr_dot s)) [
  | inr (later, e) ↦ strrchr_dot-dot s dot (ground (arith, h, e))
  | inl e ↦ elim (Bool-cases (c == b'.')) [
    | inl k ↦ (s, ground (arith, h, e, k))
    | inr k ↦ ground (arith, h, e, k)
  ]
]

-- No file is spared the compression for its suffix: the list has the suffixes without the dot.
pub has_suffix_never : (name : Bytes) → has_suffix name ≡ false
unfolding has_suffix is_listed
has_suffix_never name = elim (Option-cases (strrchr_dot name)) [
  | inl e ↦ rw (e, has_suffix) refl
  | inr (dot, e) ↦ let (rest, d) = strrchr_dot-dot name dot e in rw (e, has_suffix) (rw d refl)
]
