-- ===== src/Filesystem/Stored.antt =====
-- What the writer keeps true: each entry tells where its file's name and data stand.
use rigcontrol.Common.{
  ℕ, ◌+◌, ◌^◌, ◌<◌, ◌≡◌, ◌∙◌, refl, sym, ap, inl, inr, arith, Bool, true, ◌||◌, Option, none, some,
  List, [], ◌∷◌, ◌++◌, Bytes, length, ltb, leb, ◌==◌, append_assoc, append-nil, Bool-cases,
  Option-cases,
}
use rigcontrol.Filesystem.{Method, Entry, header_size, maximum_size}
use rigcontrol.Filesystem.Generate.{
  File, Writer, position, has_suffix, write_data, write_file, write_files,
}
use rigcontrol.Filesystem.Placed.{At, end-At, At-append}

module _ (compress : Bytes → Bytes) where
  -- How the data of a file is stored in the body.
  pub data Data (body : Bytes) (e : Entry) (contents : Bytes) : Type 0 where
    empty :
        contents ≡ []
        → e.method ≡ Method.zero_length
        → e.data_offset ≡ 0
        → e.compressed_size ≡ 0
        → e.size ≡ 0
        → Data body e contents
    plain :
        (k : ℕ)
        → At contents k body
        → e.data_offset ≡ header_size + k
        → e.method ≡ Method.none
        → e.size ≡ length contents
        → e.compressed_size ≡ length contents
        → Data body e contents
    packed :
        (k : ℕ)
        → At (compress contents) k body
        → e.data_offset ≡ header_size + k
        → e.method ≡ Method.zlib
        → e.size < 2 ^ 32
        → e.compressed_size ≡ length (compress contents)
        → Data body e contents

  pub record Stored (body : Bytes) (e : Entry) (f : File) : Type 0 where
    pub name_place : ℕ
    pub name_stored : At (f.pathname ++ 0 ∷ []) name_place body
    pub name_known : e.name_offset ≡ header_size + name_place
    pub data_stored : Data body e f.contents

  unfoldable pub AllStored : Bytes → List Entry → List File → Type 0
  AllStored body [] [] = Unit
  AllStored body (e ∷ es) (f ∷ fs) = Stored body e f × AllStored body es fs
  AllStored body _ _ = ⊥

  Data-append :
      (body x : Bytes) (e : Entry) (contents : Bytes)
      → Data body e contents
      → Data (body ++ x) e contents
  Data-append body x e contents (empty a b c d f) = empty a b c d f
  Data-append body x e contents (plain k a b c d f) = plain k (At-append x a) b c d f
  Data-append body x e contents (packed k a b c d f) = packed k (At-append x a) b c d f

  pub Stored-append :
      (body x : Bytes) (e : Entry) (f : File) → Stored body e f → Stored (body ++ x) e f
  Stored-append body x e f s = record {
    name_place = s.name_place;
    name_stored = At-append x s.name_stored;
    name_known = s.name_known;
    data_stored = Data-append body x e f.contents s.data_stored;
  }

  pub AllStored-append :
      (body x : Bytes) (es : List Entry) (fs : List File)
      → AllStored body es fs
      → AllStored (body ++ x) es fs
  unfolding AllStored
  AllStored-append body x [] [] h = tt
  AllStored-append body x (e ∷ es) (f ∷ fs) (s, h) =
      (Stored-append body x e f s, AllStored-append body x es fs h)
  AllStored-append body x [] (f ∷ fs) h = absurd h
  AllStored-append body x (e ∷ es) [] h = absurd h

  AllStored-snoc :
      (body : Bytes) (es : List Entry) (fs : List File) (e : Entry) (f : File)
      → AllStored body es fs
      → Stored body e f
      → AllStored body (es ++ e ∷ []) (fs ++ f ∷ [])
  unfolding AllStored
  AllStored-snoc body [] [] e f h s = (s, tt)
  AllStored-snoc body (d ∷ es) (g ∷ fs) e f (t, h) s = (t, AllStored-snoc body es fs e f h s)
  AllStored-snoc body [] (g ∷ fs) e f h s = absurd h
  AllStored-snoc body (d ∷ es) [] e f h s = absurd h

  -- What `write_data` adds to a writer.
  pub record Adds (w : Writer) (name_offset : ℕ) (contents : Bytes) (w' : Writer) : Type 0 where
    pub added : Bytes
    pub entry : Entry
    pub body_grows : w'.body ≡ w.body ++ added
    pub entries_grow : w'.entries ≡ w.entries ++ entry ∷ []
    pub name_known : entry.name_offset ≡ name_offset
    pub data_stored : Data (w.body ++ added) entry contents

  contents_empty : (contents : Bytes) → (length contents == 0) ≡ true → contents ≡ []
  contents_empty [] e = refl
  contents_empty (c ∷ cs) e = ground (arith, e)

  write_data-Adds :
      (listed : Bool) (name_offset : ℕ) (contents : Bytes) (w w' : Writer)
      → write_data compress listed name_offset contents w ≡ some w'
      → Adds w name_offset contents w'
  unfolding write_data
  write_data-Adds listed n contents w w' h = elim (Bool-cases (length contents == 0)) [
    | inl e ↦ by_equation _ (rw e at h) (record {
      added = [];
      entry = _;
      body_grows = sym (append-nil w.body);
      entries_grow = refl;
      name_known = refl;
      data_stored = empty (contents_empty contents e) refl refl refl refl;
    })
    | inr e ↦ elim (Bool-cases (ltb (length contents) 100 || listed)) [
      | inl k ↦ elim (Bool-cases (leb maximum_size (position w + length contents))) [
        | inl j ↦ absurd (none_is_no_writer (rw (e, k, j) at h))
        | inr j ↦ by_equation _ (rw (e, k, j) at h) (record {
          added = contents;
          entry = _;
          body_grows = refl;
          entries_grow = refl;
          name_known = refl;
          data_stored = plain (length w.body) (end-At w.body contents _ refl) refl refl refl refl;
        })
      ]
      | inr k ↦ elim (Bool-cases (leb (position w + length (compress contents)) maximum_size)) [
        | inr j ↦ absurd (none_is_no_writer (rw (e, k, j) at h))
        | inl j ↦ by_equation _ (rw (e, k, j) at h) (record {
          added = compress contents;
          entry = _;
          body_grows = refl;
          entries_grow = refl;
          name_known = refl;
          data_stored =
              packed (length w.body) (end-At w.body (compress contents) _ refl) refl refl
                (omega arith) refl;
        })
      ]
    ]
  ]
    where
      none_is_no_writer : Path (Option Writer) none (some w') → ⊥
      none_is_no_writer p = cc

      by_equation : (v : Writer) → some v ≡ some w' → Adds w n contents v → Adds w n contents w'
      by_equation v p a = record {
        added = a.added;
        entry = a.entry;
        body_grows = ap (λ x. x.body) (sym (out p)) ∙ a.body_grows;
        entries_grow = ap (λ x. x.entries) (sym (out p)) ∙ a.entries_grow;
        name_known = a.name_known;
        data_stored = a.data_stored;
      }
        where
          out : some v ≡ some w' → v ≡ w'
          out q = cc

  abbrev named : File → Writer → Writer
  named f w = record w { body = w.body ++ (f.pathname ++ 0 ∷ []) }

  write_file-AllStored :
      (f : File) (w w' : Writer) (fs : List File)
      → AllStored w.body w.entries fs
      → write_file compress f w ≡ some w'
      → AllStored w'.body w'.entries (fs ++ f ∷ [])
  unfolding write_file
  write_file-AllStored f w w' fs all h =
      let a = write_data-Adds (has_suffix f.name) (position w) f.contents (named f w) w' h in
      let name_stored =
        At-append a.added (end-At w.body (f.pathname ++ 0 ∷ []) (length w.body) refl) in
      rw (a.body_grows, a.entries_grow)
        (AllStored-snoc _ w.entries fs a.entry f
          (AllStored-append (w.body ++ (f.pathname ++ 0 ∷ [])) a.added w.entries fs
            (AllStored-append w.body (f.pathname ++ 0 ∷ []) w.entries fs all))
          (record {
            name_place = length w.body;
            name_stored = name_stored;
            name_known = a.name_known;
            data_stored = a.data_stored;
          }))

  pub write_files-AllStored :
      (fs done : List File) (w w' : Writer)
      → AllStored w.body w.entries done
      → write_files compress fs w ≡ some w'
      → AllStored w'.body w'.entries (done ++ fs)
  unfolding write_files
  write_files-AllStored [] done w w' all h = rw (append-nil done) (rw same all)
    where
      same : w' ≡ w
      same = cc
  write_files-AllStored (f ∷ fs) done w w' all h = elim (Option-cases (write_file compress f w)) [
    | inl n ↦ absurd (no_writer (rw (n, write_files) at h))
    | inr (v, e) ↦ rw (← append_assoc done (f ∷ []) fs) (
        write_files-AllStored fs (done ++ f ∷ []) v w' (write_file-AllStored f w v done all e)
          (rw (e, write_files) at h))
  ]
    where
      no_writer : Path (Option Writer) none (some w') → ⊥
      no_writer p = cc
