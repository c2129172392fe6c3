-- ===== src/Command/Tests.antt =====
-- Two commands that are registered in the other order, with an insertion sort for qsort.
use rigcontrol.Common.{
  ◌≡◌, refl, ap, arith, inl, inr, Bool, true, false, Option, none, some, List, [], ◌∷◌, ◌++◌, Bytes,
  codes, map, if◌then◌else◌, Bool-cases,
}
use mathlib.Core.List.{Permᴰ}
use mathlib.Core.List.Permᴰ
use rigcontrol.Command.{Command, strcmp_le, compare_le, gm_command_add_registered_to_console}
use rigcontrol.Command.Sorted.{
  Ascends, IsSorted, Sorts, register_all, gm_command_add_registered-register_all,
}

abbrev insert : Command → List Command → List Command
unfolding compare_le
insert c [] = c ∷ []
insert c (d ∷ ds) = let rest = insert c ds in if compare_le c d then c ∷ d ∷ ds else d ∷ rest

abbrev sort : List Command → List Command
unfolding insert
sort [] = []
sort (c ∷ cs) = insert c (sort cs)

abbrev present : List (Option Command) → List Command
present [] = []
present (none ∷ cs) = present cs
present (some c ∷ cs) = c ∷ present cs

abbrev qsort : List (Option Command) → List (Option Command)
unfolding sort
qsort cs = map some (sort (present cs))

present-map : (cs : List Command) → present (map some cs) ≡ cs
present-map [] = refl
present-map (c ∷ cs) = ap (◌∷◌ c) (present-map cs)

insert-Permᴰ : (c : Command) (cs : List Command) → Permᴰ (c ∷ cs) (insert c cs)
unfolding insert
insert-Permᴰ c [] = Permᴰ.cons refl Permᴰ.nil
insert-Permᴰ c (d ∷ ds) = elim (Bool-cases (compare_le c d)) [
  | inl e ↦ rw e (Permᴰ.refl (c ∷ d ∷ ds))
  | inr e ↦ rw e (Permᴰ.trans (Permᴰ.swap refl refl) (Permᴰ.cons refl (insert-Permᴰ c ds)))
]

sort-Permᴰ : (cs : List Command) → Permᴰ cs (sort cs)
unfolding sort
sort-Permᴰ [] = Permᴰ.nil
sort-Permᴰ (c ∷ cs) = Permᴰ.trans (Permᴰ.cons refl (sort-Permᴰ cs)) (insert-Permᴰ c (sort cs))

strcmp_le-total : (a b : Bytes) → strcmp_le a b ≡ false → strcmp_le b a ≡ true
unfolding strcmp_le
strcmp_le-total [] b e = cc
strcmp_le-total (x ∷ a) [] e = refl
strcmp_le-total (x ∷ a) (y ∷ b) e = ground (arith, e, strcmp_le-total a b)

below :
    (c d : Command) (ds : List Command)
    → compare_le d c ≡ true
    → Ascends (d ∷ ds)
    → Ascends (d ∷ insert c ds)
unfolding insert Ascends
below c d [] h s = (h, tt)
below c d (e ∷ ds) h (k, s) = elim (Bool-cases (compare_le c e)) [
  | inl q ↦ rw q (h, (q, s))
  | inr q ↦ rw q (k, below c e ds (strcmp_le-total c.command e.command q) s)
]

insert-Ascends : (c : Command) (cs : List Command) → Ascends cs → Ascends (insert c cs)
unfolding insert Ascends
insert-Ascends c [] s = tt
insert-Ascends c (d ∷ ds) s = elim (Bool-cases (compare_le c d)) [
  | inl q ↦ rw q (q, s)
  | inr q ↦ rw q (below c d ds (strcmp_le-total c.command d.command q) s)
]

sort-Ascends : (cs : List Command) → Ascends (sort cs)
unfolding sort Ascends
sort-Ascends [] = tt
sort-Ascends (c ∷ cs) = insert-Ascends c (sort cs) (sort-Ascends cs)

abbrev accept_all : List Command → Command → Bool
accept_all console c = true

sorts : (xs : List Command) → (ys : List Command) × Sorts accept_all (λ c d. refl) qsort xs ys
unfolding qsort
sorts xs = (sort xs, (ap (λ l. map some (sort l)) (present-map xs), sort-Permᴰ xs, sort-Ascends xs))

abbrev commands : List Command
commands =
    record { command = codes "wget"; func = 1 } ∷ record { command = codes "date"; func = 2 } ∷ []

gm_command_add_registered-register_all_example :
    (ys : List Command) × (gm_command_add_registered_to_console accept_all qsort
        (register_all commands none)
        []
      ≡ some ([] ++ ys))
    × Permᴰ commands ys
    × IsSorted ys
gm_command_add_registered-register_all_example =
    gm_command_add_registered-register_all accept_all (λ c d. refl) qsort commands [] sorts
      (omega arith) (omega arith)
