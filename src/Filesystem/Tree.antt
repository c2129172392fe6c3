-- ===== src/Filesystem/Tree.antt =====
-- A path in the image leads to the file that it leads to in the directory.
pub mod Walked
pub mod Embedded
use rigcontrol.Common.{
  ℕ, ◌≡◌, ◌≢◌, ◌≤◌, ◌∙◌, refl, sym, ap, arith, inl, inr, suc, zero, min, Bool, true, false, Option,
  none, some, List, [], ◌∷◌, ◌++◌, append_assoc, Bytes, All, All-append, Free, index, index-append,
  index-Free, length, take_all, take, if◌then◌else◌, Bool-cases, str_eq, str_eq_iff, str_eq_refl,
}
use rigcontrol.Filesystem.Generate.{File, fs_gen}
use rigcontrol.Filesystem.Read.{fs_read}
use rigcontrol.Filesystem.Locate.{lookup}
use rigcontrol.Filesystem.RoundTrip.{fs_read-fs_gen}
use rigcontrol.Filesystem.Descend.{
  Items, Node, nothing, entry, regular, directory, symbolic_link, special, is_dots, joined_path,
  pathname_of, descend, descend_entry, generate,
}

-- The names of a path with slashes between.
abbrev pub join : Bytes → List Bytes → Bytes
join name [] = name
join name (next ∷ names) = name ++ b'/' ∷ join next names

abbrev pub or_else : Option Bytes → Option Bytes → Option Bytes
or_else none o = o
or_else (some contents) o = some contents

-- The contents of the first file that the names lead to, entering a directory for each name but the
-- last.
unfoldable mutual
  unfolding str_eq

  pub walk : Bytes → List Bytes → Items → Option Bytes
  walk name names nothing = none
  walk name names (entry this typed node rest) =
      let others = walk name names rest in
      let here = walk_node names typed node in
      if is_dots this then others else if str_eq this name then or_else here others else others

  pub walk_node : List Bytes → Bool → Node → Option Bytes
  walk_node [] typed (regular contents) = some contents
  walk_node (name ∷ names) typed (regular contents) = none
  walk_node [] typed (directory items) = none
  walk_node (name ∷ names) typed (directory items) = walk name names items
  walk_node names true (symbolic_link node) = none
  walk_node names false (symbolic_link node) = walk_node names false node
  walk_node names typed special = none

-- The names are file names, and the paths are not cut off.
unfoldable mutual
  pub IsNamed : Option Bytes → Items → Type 0
  IsNamed at nothing = Unit
  IsNamed at (entry name typed node rest) =
      Free b'/' name
      × Free 0 name
      × (length (joined_path at name) ≤ 1023)
      × IsNodeNamed (joined_path at name) node
      × IsNamed at rest

  pub IsNodeNamed : Bytes → Node → Type 0
  IsNodeNamed at (regular contents) = Unit
  IsNodeNamed at (directory items) = IsNamed (some at) items
  IsNodeNamed at (symbolic_link node) = IsNodeNamed at node
  IsNodeNamed at special = Unit

lookup-append :
    (path : Bytes) (xs ys : List File)
    → lookup path (xs ++ ys) ≡ or_else (lookup path xs) (lookup path ys)
unfolding lookup
lookup-append path [] ys = refl
lookup-append path (f ∷ xs) ys = elim (Bool-cases (str_eq f.pathname path)) [
  | inl e ↦ rw (e, lookup) refl
  | inr e ↦ rw (e, lookup) (lookup-append path xs ys)
]

str_eq-differ : (s t : Bytes) → s ≢ t → str_eq s t ≡ false
str_eq-differ s t differ = elim (Bool-cases (str_eq s t)) [
  | inl e ↦ absurd (differ ((str_eq_iff s t).0 e))
  | inr e ↦ e
]

lookup-single : (f : File) (path : Bytes) → f.pathname ≢ path → lookup path (f ∷ []) ≡ none
unfolding lookup
lookup-single f path differ = rw (str_eq-differ f.pathname path differ, lookup) refl

-- What an entry that is not "." or ".." adds to the files.
lookup-entry :
    (path : Bytes) (at : Option Bytes) (name : Bytes) (typed : Bool) (node : Node) (rest : Items)
    → is_dots name ≡ false
    → length (joined_path at name) ≤ 1023
    → lookup path (descend at (entry name typed node rest))
      ≡ or_else
          (lookup path (descend_entry (joined_path at name) name typed node))
          (lookup path (descend at rest))
unfolding descend
lookup-entry path at name typed node rest e fits =
    rw (e, take_all 1023 (joined_path at name) fits)
      (lookup-append path (descend_entry (joined_path at name) name typed node) (descend at rest))

lookup-dots :
    (path : Bytes) (at : Option Bytes) (name : Bytes) (typed : Bool) (node : Node) (rest : Items)
    → is_dots name ≡ true
    → lookup path (descend at (entry name typed node rest)) ≡ lookup path (descend at rest)
unfolding descend
lookup-dots path at name typed node rest e = rw e refl

-- A path that does not go through a directory is not that of a file in it.
mutual
  unfolding lookup descend IsNamed

  descend-outside :
      (path at : Bytes) (items : Items)
      → ((rest : Bytes) → path ≢ at ++ b'/' ∷ rest)
      → IsNamed (some at) items
      → lookup path (descend (some at) items) ≡ none
  descend-outside path at nothing outside named = refl
  descend-outside path at (entry name typed node rest) outside (slash, free, fits, within, named) =
      let later = descend-outside path at rest outside named in
      elim (Bool-cases (is_dots name)) [
        | inl e ↦ lookup-dots path (some at) name typed node rest e ∙ later
        | inr e ↦
            lookup-entry path (some at) name typed node rest e fits
            ∙ rw
                (descend_entry-outside path (at ++ b'/' ∷ name) name typed node (outside name)
                  (λ more q.
                    outside (name ++ b'/' ∷ more) (q ∙ append_assoc at (b'/' ∷ name) (b'/' ∷ more)))
                  within)
                later
      ]

  descend_entry-outside :
      (path at name : Bytes) (typed : Bool) (node : Node)
      → path ≢ at
      → ((rest : Bytes) → path ≢ at ++ b'/' ∷ rest)
      → IsNodeNamed at node
      → lookup path (descend_entry at name typed node) ≡ none
  descend_entry-outside path at name typed (regular contents) differ outside within =
      lookup-single (record { name = name; pathname = at; contents = contents }) path
        (λ e. differ (sym e))
  descend_entry-outside path at name typed (directory items) differ outside within =
      descend-outside path at items outside within
  descend_entry-outside path at name true (symbolic_link node) differ outside within = refl
  descend_entry-outside path at name false (symbolic_link node) differ outside within =
      descend_entry-outside path at name false node differ outside within
  descend_entry-outside path at name typed special differ outside within = refl

joined_path-cancel : (at : Option Bytes) (s t : Bytes) → joined_path at s ≡ joined_path at t → s ≡ t
joined_path-cancel none s t e = e
joined_path-cancel (some at) s t e = go at e
  where
    go : (at : Bytes) → at ++ b'/' ∷ s ≡ at ++ b'/' ∷ t → s ≡ t
    go [] e = cc
    go (c ∷ at) e = go at cc

joined_path_assoc :
    (at : Option Bytes) (s t : Bytes)
    → joined_path (some (joined_path at s)) t ≡ joined_path at (s ++ b'/' ∷ t)
joined_path_assoc none s t = refl
joined_path_assoc (some at) s t = append_assoc at (b'/' ∷ s) (b'/' ∷ t)

-- A name ends at the first slash.
slash-cancel :
    (name other rest : Bytes) (names : List Bytes)
    → Free b'/' name
    → Free b'/' other
    → join other names ≡ name ++ b'/' ∷ rest
    → other ≡ name
slash-cancel name other rest [] f g e =
    absurd
      (differ (sym (index-Free b'/' other g) ∙ ap (index b'/') e ∙ index-append b'/' name rest f))
  where
    differ : Path (Option (Bytes × Bytes)) none (some (name, rest)) → ⊥
    differ p = cc
slash-cancel name other rest (next ∷ names) f g e = first (
    sym (index-append b'/' other (join next names) g)
    ∙ ap (index b'/') e
    ∙ index-append b'/' name rest f)
  where
    first :
        Path (Option (Bytes × Bytes)) (some (other, join next names)) (some (name, rest))
        → other ≡ name
    first p = cc

join-name :
    (name other : Bytes) (names : List Bytes)
    → Free b'/' name
    → Free b'/' other
    → join other names ≡ name
    → other ≡ name
join-name name other [] f g e = e
join-name name other (next ∷ names) f g e = absurd (
    differ (
      sym (index-append b'/' other (join next names) g)
      ∙ ap (index b'/') e
      ∙ index-Free b'/' name f))
  where
    differ : Path (Option (Bytes × Bytes)) (some (other, join next names)) none → ⊥
    differ p = cc
