-- ===== src/Filesystem/Locate.antt =====
-- Where a reader finds a file in the image that fs_gen writes.
use rigcontrol.Common.{
  le32, word_of, ℕ, suc, ◌+◌, ◌^◌, ◌<◌, ◌≡◌, ◌∙◌, refl, ap, inl, inr, arith, false, Option, none,
  some, List, [], ◌∷◌, ◌++◌, Bytes, All, Free, length, drop, if◌then◌else◌, Bool-cases, str_eq,
}
use rigcontrol.Filesystem.{Method, method_code, Entry, header_size, entry_size, maximum_size}
use rigcontrol.Filesystem.Generate.{File, entry_bytes, table_bytes}
use rigcontrol.Filesystem.Read.{RawEntry, entry_at, name_at, find_entry}
use rigcontrol.Filesystem.Placed.{At, At-behind, At-left, At-right, At-bound, word-At, name-At}
use rigcontrol.Filesystem.Stored.{Data, empty, plain, packed, Stored, AllStored}

-- The contents of the first file of a path.
unfoldable pub lookup : Bytes → List File → Option Bytes
unfolding str_eq
lookup path [] = none
lookup path (f ∷ fs) =
    let others = lookup path fs in if str_eq f.pathname path then some f.contents else others

-- The fields of an entry fit their words.
abbrev pub InRange : Entry → Type 0
InRange e =
    (e.name_offset < 2 ^ 32)
    × (e.data_offset < 2 ^ 32)
    × (e.compressed_size < 2 ^ 32)
    × (e.size < 2 ^ 32)

find_entry-suc :
    (image path : Bytes) (n at : ℕ) (e : RawEntry) (name : Bytes)
    → entry_at image at ≡ e
    → name_at image e.name_offset ≡ name
    → find_entry image (suc n) at path
      ≡ (if str_eq name path then some e else find_entry image n (at + entry_size) path)
unfolding find_entry
find_entry-suc image path n at e name p q =
    ap
      (λ r.
        if str_eq (name_at image r.name_offset) path
        then some r
        else find_entry image n (at + entry_size) path)
      p
    ∙ ap (λ m. if str_eq m path then some e else find_entry image n (at + entry_size) path) q

module _ (compress : Bytes → Bytes) where
  Data-InRange :
      (body : Bytes) (e : Entry) (contents : Bytes)
      → length body < maximum_size
      → Data compress body e contents
      → (e.data_offset < 2 ^ 32) × (e.compressed_size < 2 ^ 32) × (e.size < 2 ^ 32)
  Data-InRange body e contents small (empty c m d p s) =
      (omega (arith, d), omega (arith, p), omega (arith, s))
  Data-InRange body e contents small (plain k a d m s p) =
      let b = At-bound contents k body a in
      (omega (arith, d, b, small), omega (arith, p, b, small), omega (arith, s, b, small))
  Data-InRange body e contents small (packed k a d m s p) =
      let b = At-bound (compress contents) k body a in
      (omega (arith, d, b, small), omega (arith, p, b, small), s)

  Stored-InRange :
      (body : Bytes) (e : Entry) (f : File)
      → length body < maximum_size
      → Stored compress body e f
      → InRange e
  Stored-InRange body e f small s =
      let b = At-bound (f.pathname ++ 0 ∷ []) s.name_place body s.name_stored in
      let (d, p, z) = Data-InRange body e f.contents small s.data_stored in
      (omega (arith, s.name_known, b, small), d, p, z)

  -- An entry is read as it was written.
  abbrev pub raw : Entry → RawEntry
  raw e = record {
    name_offset = e.name_offset;
    data_offset = e.data_offset;
    compressed_size = e.compressed_size;
    size = e.size;
    method = method_code e.method;
  }

  method_code_small : (m : Method) → method_code m < 2 ^ 32
  method_code_small Method.none = omega arith
  method_code_small Method.zero_length = omega arith
  method_code_small Method.zlib = omega arith

  word_from :
      (w offset at : ℕ) (image : Bytes)
      → w < 2 ^ 32
      → at ≡ offset
      → At (le32 w) offset image
      → word_of (drop at image) ≡ w
  word_from w offset at image h e a =
      ap (λ o. word_of (drop o image)) e ∙ word-At w offset image h a

  entry_at-At :
      (image : Bytes) (e : Entry) (at : ℕ)
      → InRange e
      → At (entry_bytes e) at image
      → entry_at image at ≡ raw e
  unfolding entry_at
  entry_at-At image e at (n, d, p, s) a =
      let a1 = At-right (le32 e.name_offset) _ at image a in
      let a2 = At-right (le32 e.data_offset) _ _ image a1 in
      let a3 = At-right (le32 e.compressed_size) _ _ image a2 in
      let a4 = At-right (le32 e.size) _ _ image a3 in
      let b0 =
        word_from e.name_offset at at image n refl (At-left (le32 e.name_offset) _ at image a) in
      let b1 =
        word_from e.data_offset _ (at + 4) image d refl
          (At-left (le32 e.data_offset) _ _ image a1) in
      let b2 =
        word_from e.compressed_size _ (at + 8) image p (omega arith)
          (At-left (le32 e.compressed_size) _ _ image a2) in
      let b3 =
        word_from e.size _ (at + 12) image s (omega arith) (At-left (le32 e.size) _ _ image a3) in
      let b4 =
        word_from (method_code e.method) _ (at + 16) image (method_code_small e.method)
          (omega arith) a4 in
      rw (b0, b1, b2, b3, b4) refl

  pub At-from :
      (t h : Bytes) (k offset : ℕ) (body : Bytes)
      → length h ≡ header_size
      → offset ≡ header_size + k
      → At t k body
      → At t offset (h ++ body)
  At-from t h k offset body eh eo a =
      let b = At-behind h a in
      record {
        before = b.before;
        behind = b.behind;
        parts = b.parts;
        place = omega (arith, b.place, eh, eo);
      }

  -- What the search for a path comes to: the entry of the first file of that path, whose data stands
  -- in the image behind the header.
  pub data Found (image path : Bytes) (fs : List File) (result : Option RawEntry) : Type 0 where
    missing : result ≡ none → lookup path fs ≡ none → Found image path fs result
    present :
        (e : Entry) (contents h body : Bytes)
        → result ≡ some (raw e)
        → lookup path fs ≡ some contents
        → length h ≡ header_size
        → image ≡ h ++ body
        → Data compress body e contents
        → Found image path fs result

  module _ (h body : Bytes) (eh : length h ≡ header_size) where
    name_at-Stored :
        (e : Entry) (f : File)
        → Free 0 f.pathname
        → Stored compress body e f
        → name_at (h ++ body) (raw e).name_offset ≡ f.pathname
    name_at-Stored e f free s = name-At f.pathname e.name_offset (h ++ body) free (
        At-from (f.pathname ++ 0 ∷ []) h s.name_place e.name_offset body eh s.name_known
          s.name_stored)

    Found-later :
        (f : File) (fs : List File) (path : Bytes) (result rest : Option RawEntry)
        → str_eq f.pathname path ≡ false
        → result ≡ rest
        → Found (h ++ body) path fs rest
        → Found (h ++ body) path (f ∷ fs) result
    unfolding lookup
    Found-later f fs path result rest k step (missing r l) = missing (step ∙ r) (rw (k, lookup) l)
    Found-later f fs path result rest k step (present e c h' b r l eh' i d) =
        present e c h' b (step ∙ r) (rw (k, lookup) l) eh' i d

    pub find_entry-Found :
        (es : List Entry) (fs : List File) (at : ℕ) (path : Bytes)
        → length body < maximum_size
        → All (λ f. Free 0 f.pathname) fs
        → AllStored compress body es fs
        → At (table_bytes es) at (h ++ body)
        → Found (h ++ body) path fs (find_entry (h ++ body) (length es) at path)
    unfolding find_entry lookup AllStored table_bytes
    find_entry-Found [] [] at path small free all a = missing refl refl
    find_entry-Found [] (f ∷ fs) at path small free all a = absurd all
    find_entry-Found (e ∷ es) [] at path small free all a = absurd all
    find_entry-Found (e ∷ es) (f ∷ fs) at path small (free, frees) (stored, all) a =
        let same =
          entry_at-At (h ++ body) e at (Stored-InRange body e f small stored)
            (At-left (entry_bytes e) (table_bytes es) at (h ++ body) a) in
        let name = name_at-Stored e f free stored in
        let rest =
          find_entry-Found es fs (at + entry_size) path small frees all
            (At-right (entry_bytes e) (table_bytes es) at (h ++ body) a) in
        let step = find_entry-suc (h ++ body) path (length es) at (raw e) f.pathname same name in
        elim (Bool-cases (str_eq f.pathname path)) [
          | inl k ↦
              present e f.contents h body (step ∙ rw k refl) (rw (k, lookup) refl) eh refl
                stored.data_stored
          | inr k ↦ Found-later f fs path _ _ k (step ∙ rw k refl) rest
        ]
