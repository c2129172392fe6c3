-- ===== src/Filesystem/Tree/Walked.antt =====
-- descend gives every file by the path that leads to it.
use rigcontrol.Common.{
  ◌≡◌, ◌≢◌, ◌∙◌, refl, sym, ap, inl, inr, Bool, true, false, Option, none, some, List, [], ◌∷◌,
  ◌++◌, Bytes, All, Free, Bool-cases, str_eq, str_eq_iff, str_eq_refl,
}
use rigcontrol.Filesystem.Locate.{lookup}
use rigcontrol.Filesystem.Descend.{
  Items, Node, nothing, entry, regular, directory, symbolic_link, special, is_dots, joined_path,
  descend, descend_entry,
}
use rigcontrol.Filesystem.Tree.{
  join, or_else, walk, walk_node, IsNamed, IsNodeNamed, lookup-single, lookup-entry, lookup-dots,
  descend-outside, descend_entry-outside, joined_path-cancel, joined_path_assoc, slash-cancel,
  join-name,
}

not_below : (s rest : Bytes) → s ≢ s ++ b'/' ∷ rest
not_below [] rest e = cc
not_below (c ∷ s) rest e = not_below s rest cc

join-joined_path :
    (at : Option Bytes) (name : Bytes) (names : List Bytes)
    → joined_path at (join name names) ≡ join (joined_path at name) names
join-joined_path at name [] = refl
join-joined_path at name (next ∷ names) = sym (joined_path_assoc at name (join next names))

-- The path goes through another entry of the directory.
descend_entry-other :
    (at : Option Bytes) (this name : Bytes) (names : List Bytes) (typed : Bool) (node : Node)
    → Free b'/' this
    → Free b'/' name
    → str_eq this name ≡ false
    → IsNodeNamed (joined_path at this) node
    → lookup
        (joined_path at (join name names))
        (descend_entry (joined_path at this) this typed node)
      ≡ none
descend_entry-other at this name names typed node f g e within =
    descend_entry-outside (joined_path at (join name names)) (joined_path at this) this typed node
      (λ q. differ (join-name this name names f g (joined_path-cancel at _ _ q)))
      (λ rest q. differ (
        slash-cancel this name rest names f g
          (joined_path-cancel at _ _ (q ∙ joined_path_assoc at this rest))))
      within
  where
    differ : name ≢ this
    differ q = cc (e, (str_eq_iff this name).1 (sym q))

mutual
  unfolding lookup descend walk IsNamed

  pub lookup-descend :
      (at : Option Bytes) (name : Bytes) (names : List Bytes) (items : Items)
      → All (Free b'/') (name ∷ names)
      → IsNamed at items
      → lookup (joined_path at (join name names)) (descend at items) ≡ walk name names items
  lookup-descend at name names nothing frees named = refl
  lookup-descend at name names (entry this typed node rest) (free, frees)
        (slash, null, fits, within, named) =
      let later = lookup-descend at name names rest (free, frees) named in
      let path = joined_path at (join name names) in
      elim (Bool-cases (is_dots this)) [
        | inl e ↦ lookup-dots path at this typed node rest e ∙ rw e later
        | inr e ↦
            lookup-entry path at this typed node rest e fits
            ∙ rw (e, later)
                (elim (Bool-cases (str_eq this name)) [
                  | inr k ↦
                      rw (k, descend_entry-other at this name names typed node slash free k within)
                        refl
                  | inl k ↦ rw k (
                      ap (λ o. or_else o (walk name names rest))
                        (ap (λ q. lookup q (descend_entry (joined_path at this) this typed node))
                            (join-joined_path at name names
                              ∙ ap (λ n. join (joined_path at n) names)
                                  (sym ((str_eq_iff this name).0 k)))
                          ∙ lookup-descend_entry (joined_path at this) this names typed node frees
                              within))
                ])
      ]

  lookup-descend_entry :
      (at this : Bytes) (names : List Bytes) (typed : Bool) (node : Node)
      → All (Free b'/') names
      → IsNodeNamed at node
      → lookup (join at names) (descend_entry at this typed node) ≡ walk_node names typed node
  lookup-descend_entry at this [] typed (regular contents) frees within = rw (str_eq_refl at) refl
  lookup-descend_entry at this (name ∷ names) typed (regular contents) frees within =
      lookup-single (record { name = this; pathname = at; contents = contents })
        (join at (name ∷ names)) (not_below at (join name names))
  lookup-descend_entry at this [] typed (directory items) frees within =
      descend-outside at at items (not_below at) within
  lookup-descend_entry at this (name ∷ names) typed (directory items) frees within =
      lookup-descend (some at) name names items frees within
  lookup-descend_entry at this names true (symbolic_link node) frees within = refl
  lookup-descend_entry at this names false (symbolic_link node) frees within =
      lookup-descend_entry at this names false node frees within
  lookup-descend_entry at this names typed special frees within = refl
