-- ===== src/Common/Text.antt =====
-- C strings as lists of bytes, with the terminating null left out.
use Prim.Native.Char.{code}
use Prim.Native.String.{String}
use Prim.Native.Nat.{ℕ, ◌+◌}
use mathlib.Core.Path.{◌≡◌, refl}
use mathlib.Core.Logic.{◌↔◌, ◌≢◌, inl, inr}
use mathlib.Core.Bool.{Bool, true, false, ◌&&◌}
use mathlib.Core.List.{List, [], ◌∷◌, ◌++◌}
use mathlib.Core.Option.{Option, none, some}
use native.Mathlib.Omega.{arith}
use rigcontrol.Common.Tests.{◌==◌, if◌then◌else◌, Bool-cases, Option-cases}
use rigcontrol.Common.Lists.{All, length}

abbrev pub Bytes : Type 0
Bytes = List ℕ

abbrev pub codes : String → Bytes
codes String.[] = []
codes (String.◌∷◌ c s) = code c ∷ codes s

-- `strcmp(a, b) == 0`
unfoldable pub str_eq : Bytes → Bytes → Bool
str_eq [] [] = true
str_eq [] (b ∷ t) = false
str_eq (a ∷ s) [] = false
str_eq (a ∷ s) (b ∷ t) = a == b && str_eq s t

pub str_eq_refl : (s : Bytes) → str_eq s s ≡ true
unfolding str_eq
str_eq_refl [] = refl
str_eq_refl (c ∷ s) = ground (arith, str_eq_refl s)

pub eq_of_str_eq : (s t : Bytes) → str_eq s t ≡ true → s ≡ t
unfolding str_eq
eq_of_str_eq [] [] h = refl
eq_of_str_eq [] (b ∷ t) h = cc
eq_of_str_eq (a ∷ s) [] h = cc
eq_of_str_eq (a ∷ s) (b ∷ t) h = ground (arith, eq_of_str_eq s t)

pub str_eq_iff : (s t : Bytes) → (str_eq s t ≡ true) ↔ (s ≡ t)
str_eq_iff s t = (eq_of_str_eq s t, λ e. rw e (str_eq_refl t))

-- `index(s, c)`: what stands before the first `c`, and what stands behind it.
unfoldable pub index : ℕ → Bytes → Option (Bytes × Bytes)
index c [] = none
index c (x ∷ xs) =
    if x == c
    then some ([], xs)
    else elim (index c xs) [ none ↦ none | some (before, after) ↦ some (x ∷ before, after) ]

-- `c` does not stand in `s`.
abbrev pub Free : ℕ → Bytes → Type 0
Free c s = All (λ x. x ≢ c) s

pub index-append : (c : ℕ) (s t : Bytes) → Free c s → index c (s ++ c ∷ t) ≡ some (s, t)
unfolding index
index-append c [] t h = ground arith
index-append c (x ∷ s) t (p, h) = ground (arith, index-append c s t h)

pub index-Free : (c : ℕ) (s : Bytes) → Free c s → index c s ≡ none
unfolding index
index-Free c [] h = refl
index-Free c (x ∷ s) (p, h) = ground (arith, index-Free c s h)

-- The C string in an array: what stands before the first null.
unfoldable pub c_string : Bytes → Bytes
c_string [] = []
c_string (c ∷ s) = let rest = c_string s in if c == 0 then [] else c ∷ rest

pub c_string-Free : (s : Bytes) → Free 0 s → c_string s ≡ s
unfolding c_string
c_string-Free [] h = refl
c_string-Free (c ∷ s) (p, h) = ground (arith, c_string-Free s h)

-- What `index` finds is all of the string but the byte itself.
pub length-index :
    (c : ℕ) (s before after : Bytes)
    → index c s ≡ some (before, after)
    → length before + length after + 1 ≡ length s
unfolding index
length-index c [] before after h = cc
length-index c (x ∷ xs) before after h = elim (Bool-cases (x == c)) [
  | inl e ↦ ground arith
  | inr e ↦ elim (Option-cases (index c xs)) [
    | inl n ↦ ground arith
    | inr ((b, a), m) ↦ ground (arith, length-index c xs b a m)
  ]
]

pub c_string-append : (s t : Bytes) → Free 0 s → c_string (s ++ 0 ∷ t) ≡ s
unfolding c_string
c_string-append [] t h = refl
c_string-append (c ∷ s) t (p, h) = ground (arith, c_string-append s t h)
