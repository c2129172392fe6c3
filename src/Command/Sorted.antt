-- ===== src/Command/Sorted.antt =====
-- The console gets every registered command once, sorted by its name.
use rigcontrol.Common.{
  ℕ, zero, suc, ◌+◌, ◌^◌, ◌<◌, ◌≡◌, ◌∙◌, refl, sym, ap, ap₂, arith, Bool, true, false, Option, none,
  some, List, [], ◌∷◌, ◌++◌, append_assoc, append-nil, map, length, length-append, replicate, take,
  drop, get_elem?, take-length_append, ◌==◌, ==_iff, ltb→lt, Bool-cases, inl, inr, ◌⊎◌, Bytes,
}
use mathlib.Core.List.{Permᴰ}
use rigcontrol.Array.{GmArray, read, gm_array_create, gm_array_add, gm_array_size, gm_array_get}
use rigcontrol.Array.Refines.{
  Holds, add_each, got, get-Holds, add_each-Holds, gm_array_create-Holds,
}
use rigcontrol.Command.{
  Command, strcmp_le, compare_le, gm_command_register, register_each, sorted,
  gm_command_add_registered_to_console,
}

-- What `qsort` is asked for: `compare` does not put any command behind the next one.
unfoldable pub Ascends : List Command → Type 0
unfolding compare_le
Ascends [] = Unit
Ascends (a ∷ []) = Unit
Ascends (a ∷ b ∷ cs) = (compare_le a b ≡ true) × Ascends (b ∷ cs)

-- The order of names: where two differ first, the byte of the one in front is less, or it has ended.
unfoldable pub IsInFront : Bytes → Bytes → Type 0
IsInFront [] b = Unit
IsInFront (x ∷ a) [] = ⊥
IsInFront (x ∷ a) (y ∷ b) = (x < y) ⊎ ((x ≡ y) × IsInFront a b)

unfoldable pub IsSorted : List Command → Type 0
unfolding IsInFront
IsSorted [] = Unit
IsSorted (a ∷ []) = Unit
IsSorted (a ∷ b ∷ cs) = IsInFront a.command b.command × IsSorted (b ∷ cs)

strcmp_le-IsInFront : (a b : Bytes) → strcmp_le a b ≡ true → IsInFront a b
unfolding strcmp_le IsInFront
strcmp_le-IsInFront [] b h = tt
strcmp_le-IsInFront (x ∷ a) [] h = absurd (ground arith)
strcmp_le-IsInFront (x ∷ a) (y ∷ b) h = elim (Bool-cases (x == y)) [
  | inl e ↦ inr ((==_iff x y).0 e, strcmp_le-IsInFront a b (rw e at h))
  | inr e ↦ inl (ltb→lt x y (rw e at h))
]

Ascends-IsSorted : (cs : List Command) → Ascends cs → IsSorted cs
unfolding Ascends IsSorted
Ascends-IsSorted [] h = tt
Ascends-IsSorted (a ∷ []) h = tt
Ascends-IsSorted (a ∷ b ∷ cs) (h, hs) =
    (strcmp_le-IsInFront a.command b.command h, Ascends-IsSorted (b ∷ cs) hs)

-- The constructors, one after the other.
unfoldable pub register_all : List Command → Option (GmArray Command) → Option (GmArray Command)
unfolding gm_command_register
register_all [] array = array
register_all (c ∷ cs) array = register_all cs (gm_command_register c array)

register_all-add_each :
    (cs : List Command) (array : GmArray Command)
    → register_all cs (some array) ≡ some (add_each cs array)
unfolding register_all gm_command_register add_each
register_all-add_each [] array = refl
register_all-add_each (c ∷ cs) array = register_all-add_each cs (gm_array_add array c)

length-Permᴰ : {xs ys : List Command} → Permᴰ xs ys → length xs ≡ length ys
length-Permᴰ Permᴰ.nil = refl
length-Permᴰ (Permᴰ.cons e p) = ap suc (length-Permᴰ p)
length-Permᴰ (Permᴰ.swap e k) = refl
length-Permᴰ (Permᴰ.trans p q) = length-Permᴰ p ∙ length-Permᴰ q

length-map : {A : Type 0} (xs : List A) → length (map some xs) ≡ length xs
length-map [] = refl
length-map (x ∷ xs) = ap suc (length-map xs)

drop-length_append : {A : Type 0} (xs ys : List A) (n : ℕ) → n ≡ length xs → drop n (xs ++ ys) ≡ ys
drop-length_append [] ys zero e = refl
drop-length_append [] ys (suc n) e = absurd (omega (arith, e))
drop-length_append (x ∷ xs) ys zero e = absurd (omega (arith, e))
drop-length_append (x ∷ xs) ys (suc n) e = drop-length_append xs ys n (omega (arith, e))

get_elem?-length :
    (xs ys : List Command) (y : Command) → get_elem? (xs ++ y ∷ ys) (length xs) ≡ some y
get_elem?-length [] ys y = refl
get_elem?-length (x ∷ xs) ys y = get_elem?-length xs ys y

module _ (accepts : List Command → Command → Bool)
    (accepted : (console : List Command) (c : Command) → accepts console c ≡ true) where
  -- The loop behind the commands `before` registers those that are left.
  register_each-got :
      (before rest : List Command) (array : GmArray Command) (console : List Command)
      → ((j : ℕ) → gm_array_get array j ≡ got (get_elem? (before ++ rest) j))
      → register_each accepts (length rest) (length before) array console ≡ some (console ++ rest)
  unfolding register_each
  register_each-got before [] array console reads = ap some (sym (append-nil console))
  register_each-got before (c ∷ rest) array console reads =
      let here : gm_array_get array (length before) ≡ read (some (some c)) =
        reads (length before) ∙ ap got (get_elem?-length before rest c) in
      let later =
        register_each-got (before ++ c ∷ []) rest array (console ++ c ∷ []) (λ j.
          reads j ∙ ap (λ l. got (get_elem? l j)) (sym (append_assoc before (c ∷ []) rest))) in
      let index : length before + 1 ≡ length (before ++ c ∷ []) =
        sym (length-append before (c ∷ [])) in
      rw (here, accepted console c, index, register_each)
        (later ∙ ap some (append_assoc console (c ∷ []) rest))

  module _ (qsort : List (Option Command) → List (Option Command)) where
    -- What `qsort` does to the pointers of an array.
    abbrev pub Sorts : List Command → List Command → Type 0
    Sorts xs ys = (qsort (map some xs) ≡ map some ys) × Permᴰ xs ys × Ascends ys

    sorted-Holds :
        (xs ys : List Command) (array : GmArray Command)
        → Sorts xs ys
        → Holds xs array
        → Holds ys (sorted accepts qsort array)
    unfolding sorted gm_array_size
    sorted-Holds xs ys array (sorts, perm, is_sorted) h =
        let n : array.used ≡ length (map some xs) = h.used ∙ sym (length-map xs) in
        let front : take array.used array.block ≡ map some xs =
          ap (take array.used) h.block
          ∙ take-length_append (map some xs) (replicate h.room none) array.used n in
        let back : drop array.used array.block ≡ replicate h.room none =
          ap (drop array.used) h.block
          ∙ drop-length_append (map some xs) (replicate h.room none) array.used n in
        record {
          room = h.room;
          block = ap₂ (λ a b. qsort a ++ b) front back ∙ ap (λ b. b ++ replicate h.room none) sorts;
          used = h.used ∙ length-Permᴰ perm;
          size = h.size ∙ ap (λ l. l + h.room) (length-Permᴰ perm);
        }

    add_registered-Holds :
        (xs ys : List Command) (array : GmArray Command) (console : List Command)
        → Sorts xs ys
        → Holds xs array
        → 0 < length xs
        → length xs < 2 ^ 32
        → gm_command_add_registered_to_console accepts qsort (some array) console
          ≡ some (console ++ ys)
    unfolding gm_command_add_registered_to_console gm_array_size
    add_registered-Holds xs ys array console sort holds some_xs few =
        let size : length xs ≡ length ys = length-Permᴰ (sort.1) in
        let holds_sorted = sorted-Holds xs ys array sort holds in
        let used : array.used ≡ length ys = holds.used ∙ size in
        let nonempty : (array.used == 0) ≡ false =
          let u = holds.used in ground (arith, some_xs, u) in
        let registered = register_each-got [] ys (sorted accepts qsort array) console (λ j.
          get-Holds ys (sorted accepts qsort array) j holds_sorted (omega (arith, size, some_xs))
            (omega (arith, size, few))) in
        rw nonempty (
          ap (λ n. register_each accepts n 0 (sorted accepts qsort array) console) used
          ∙ registered)

    -- Whatever commands the constructors register, in whatever order, the console gets each of them
    -- once, sorted by the bytes of its name, behind those that it has: at least one command, fewer than
    -- 2 ^ 32, the console refuses none, and qsort sorts by the function that it is given.
    pub gm_command_add_registered-register_all :
        (cs : List Command) (console : List Command)
        → ((xs : List Command) → (ys : List Command) × Sorts xs ys)
        → 0 < length cs
        → length cs < 2 ^ 32
        → (ys : List Command) × (gm_command_add_registered_to_console accepts qsort
              (register_all cs none)
              console
            ≡ some (console ++ ys))
          × Permᴰ cs ys
          × IsSorted ys
    unfolding register_all gm_command_register add_each
    gm_command_add_registered-register_all [] console sorts some_cs few =
        absurd (omega (arith, some_cs))
    gm_command_add_registered-register_all (c ∷ cs) console sorts some_cs few =
        let (ys, sort) = sorts (c ∷ cs) in
        (
          ys,
          ap (λ a. gm_command_add_registered_to_console accepts qsort a console)
                (register_all-add_each cs (gm_array_add gm_array_create c))
              ∙ add_registered-Holds (c ∷ cs) ys (add_each (c ∷ cs) gm_array_create) console sort
                  (add_each-Holds [] (c ∷ cs) gm_array_create gm_array_create-Holds) some_cs few,
          sort.1,
          Ascends-IsSorted ys (sort.2),
        )
