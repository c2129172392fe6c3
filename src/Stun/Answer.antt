-- ===== src/Stun/Answer.antt =====
-- The attributes of a response as a list, and the address that they answer.
use rigcontrol.Common.{
  ℕ, ◌+◌, ◌-◌, ◌≤◌, ◌<◌, ◌≡◌, ◌≢◌, refl, inl, inr, arith, Bool, true, false, Option, none, some,
  List, [], ◌∷◌, ◌==◌, if◌then◌else◌, Option-cases,
}
use rigcontrol.Stun.{
  Memory, ntohs_at, Address, mapped_address, error_code, xor_mapped_address, decode_mapped_address,
  decode_xor_mapped_address, Found, found, take_attribute, increment,
}

-- Attributes, each by its type and where it stands, that fill `size` bytes from `a` on.
abbrev pub Chain : Memory → ℕ → ℕ → List (ℕ × ℕ) → Type 0
Chain memory a size [] = size ≡ 0
Chain memory a size ((type, place) ∷ rest) =
    (type ≡ ntohs_at memory a)
    × (place ≡ a)
    × (type ≢ error_code)
    × (0 < size)
    × (increment (ntohs_at memory (a + 2)) ≤ size)
    × Chain memory (a + increment (ntohs_at memory (a + 2)))
        (size - increment (ntohs_at memory (a + 2))) rest

-- Where the last attribute of a type stands.
unfoldable pub last_of : ℕ → List (ℕ × ℕ) → Option ℕ
last_of type [] = none
last_of type ((t, place) ∷ rest) = elim (last_of type rest) [
  | some later ↦ some later
  | none ↦ if t == type then some place else none
]

-- The last exclusive-or address counts, and the last plain one only where there is none.
unfoldable pub answer : Memory → List (ℕ × ℕ) → Option Address
unfolding last_of
answer memory attributes = elim (last_of xor_mapped_address attributes) [
  | some place ↦ some (decode_xor_mapped_address memory place)
  | none ↦ elim (last_of mapped_address attributes) [
    | some place ↦ some (decode_mapped_address memory place)
    | none ↦ none
  ]
]

unfoldable pub read_all : Memory → List (ℕ × ℕ) → Found → Found
unfolding take_attribute
read_all memory [] f = f
read_all memory ((type, place) ∷ rest) f = read_all memory rest (take_attribute memory place type f)

abbrev pub given : Found → Option Address
given (found got_xor true address) = some address
given (found got_xor false address) = none

abbrev pub or_else : Option Address → Option Address → Option Address
or_else (some a) b = some a
or_else none b = b

unfoldable pub xor_answer : Memory → List (ℕ × ℕ) → Option Address
unfolding last_of
xor_answer memory l = elim (last_of xor_mapped_address l) [
  | some place ↦ some (decode_xor_mapped_address memory place)
  | none ↦ none
]

unfoldable pub mapped_answer : Memory → List (ℕ × ℕ) → Option Address
unfolding last_of
mapped_answer memory l = elim (last_of mapped_address l) [
  | some place ↦ some (decode_mapped_address memory place)
  | none ↦ none
]

-- Behind an exclusive-or address only another one changes what is held.
read_all_xor :
    (memory : Memory) (l : List (ℕ × ℕ)) (held : Address)
    → given (read_all memory l (found true true held)) ≡ or_else (xor_answer memory l) (some held)
unfolding last_of take_attribute read_all xor_answer mapped_answer
read_all_xor memory [] held = refl
read_all_xor memory ((type, place) ∷ l) held = elim (Option-cases (last_of xor_mapped_address l)) [
  | inl e ↦ ground (
    arith,
    e,
    read_all_xor memory l held,
    read_all_xor memory l (decode_xor_mapped_address memory place),
  )
  | inr (later, e) ↦ ground (
    arith,
    e,
    read_all_xor memory l held,
    read_all_xor memory l (decode_xor_mapped_address memory place),
  )
]

pub read_all_mapped :
    (memory : Memory) (l : List (ℕ × ℕ)) (got : Bool) (held : Address)
    → given (read_all memory l (found false got held))
      ≡ or_else
          (xor_answer memory l)
          (or_else (mapped_answer memory l) (given (found false got held)))
unfolding last_of take_attribute read_all xor_answer mapped_answer
read_all_mapped memory [] got held = refl
read_all_mapped memory ((type, place) ∷ l) got held =
    let x = read_all_xor memory l (decode_xor_mapped_address memory place) in
    let m = read_all_mapped memory l true (decode_mapped_address memory place) in
    let s = read_all_mapped memory l got held in
    elim (Option-cases (last_of xor_mapped_address l)) [
      | inl e ↦ elim (Option-cases (last_of mapped_address l)) [
        | inl k ↦ ground (arith, e, k, x, m, s)
        | inr (q, k) ↦ ground (arith, e, k, x, m, s)
      ]
      | inr (later, e) ↦ ground (arith, e, x, m, s)
    ]
