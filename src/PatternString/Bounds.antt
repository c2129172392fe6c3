-- ===== src/PatternString/Bounds.antt =====
-- `gm_pattern_string` ends on every string and stays inside its buffer.
use rigcontrol.Common.{
  ℕ, zero, suc, ◌+◌, ◌^◌, ◌<◌, ◌≡◌, arith, some, [], ◌∷◌, ◌++◌, Bytes, length, length-append, ltb,
  Bool-cases, Option-cases, inl, inr, index, length-index,
}
use rigcontrol.PatternString.{
  Coroutine, Outcome, done, failed, out_of_fuel, sub_size, is_empty, has_open, Replaced, replaced,
  refused, replace, after_replace, substitute, pattern_loop, gm_pattern_string,
}

-- Where the name that it is given lies with its null in its room, the coroutine leaves a string that
-- does so.
abbrev pub IsBounded : Coroutine → Type 0
IsBounded coroutine =
    (name : Bytes) (room : ℕ) (result : Bytes)
    → length name < room
    → coroutine name room ≡ some result
    → length result < room

-- The function has returned, with a string that fits a buffer of `size` bytes with its null.
abbrev pub Fits : ℕ → Outcome → Type 0
Fits size (done out) = length out < size
Fits size (failed why out) = length out < size
Fits size out_of_fuel = ⊥

abbrev Replaces : ℕ → Bytes → Replaced → Type 0
Replaces size leading (replaced result) = length leading + length result < size
Replaces size leading (refused why copied) = length copied < size

replace-Replaces :
    (coroutine : Coroutine) (size : ℕ) (leading name : Bytes)
    → IsBounded coroutine
    → 0 < size
    → size < 2 ^ 32
    → Replaces size leading (replace coroutine size leading name)
replace-Replaces coroutine size leading name b p k =
    elim (Bool-cases (ltb (sub_size size 1) (length leading))) [
      | inl e ↦ rw e (omega arith)
      | inr e ↦
          let room = sub_size size (length leading) in
          elim (Bool-cases (ltb (sub_size room 1) (length name))) [
            | inl f ↦ rw (e, f) (ground arith)
            | inr f ↦ elim (Option-cases (coroutine name room)) [
              | inl n ↦ rw (e, f, n) (ground (arith, length-append leading name))
              | inr (r, n) ↦ rw (e, f, n) (ground (arith, b name room r (ground arith) n))
            ]
          ]
    ]

after_replace-Fits :
    (loop : Bytes → ℕ → Outcome) (out leading : Bytes) (size total : ℕ) (r : Replaced)
    → length out + size ≡ total
    → 0 < size
    → total < 2 ^ 32
    → ((out' : Bytes) (size' : ℕ)
        → length out' + size' ≡ total
        → 0 < size'
        → Fits total (loop out' size'))
    → Replaces size leading r
    → Fits total (after_replace loop out size leading r)
after_replace-Fits loop out leading size total (refused why copied) e p k h f =
    omega (arith, length-append out copied)
after_replace-Fits loop out leading size total (replaced result) e p k h f =
    h (out ++ (leading ++ result)) (sub_size (sub_size size (length leading)) (length result))
      (omega (arith, length-append out (leading ++ result), length-append leading result))
      (omega arith)

substitute-Fits :
    (coroutine : Coroutine) (loop : Bytes → ℕ → Outcome) (out leading name : Bytes) (size total : ℕ)
    → IsBounded coroutine
    → length out + size ≡ total
    → 0 < size
    → total < 2 ^ 32
    → ((out' : Bytes) (size' : ℕ)
        → length out' + size' ≡ total
        → 0 < size'
        → Fits total (loop out' size'))
    → Fits total (substitute coroutine loop out size leading name)
unfolding substitute
substitute-Fits coroutine loop out leading name size total b e p k h =
    let next =
      after_replace-Fits loop out leading size total (replace coroutine size leading name) e p k h
        (replace-Replaces coroutine size leading name b p (omega arith)) in
    elim (Bool-cases (is_empty name)) [
      | inl x ↦ rw x (omega arith)
      | inr x ↦ elim (Bool-cases (has_open name)) [
        | inl y ↦ rw (x, y) (omega arith)
        | inr y ↦ rw (x, y) next
      ]
    ]

pattern_loop-Fits :
    (coroutine : Coroutine) (fuel : ℕ) (start out : Bytes) (size total : ℕ)
    → IsBounded coroutine
    → length start < fuel
    → length out + size ≡ total
    → 0 < size
    → total < 2 ^ 32
    → Fits total (pattern_loop coroutine fuel start out size)
unfolding pattern_loop
pattern_loop-Fits coroutine zero start out size total b h e p k = absurd (omega arith)
pattern_loop-Fits coroutine (suc fuel) [] out size total b h e p k = omega arith
pattern_loop-Fits coroutine (suc fuel) (c ∷ cs) out size total b h e p k =
    elim (Option-cases (index b'{' (c ∷ cs))) [
      | inl n ↦ rw (n, pattern_loop) (ground (arith, length-append out (c ∷ cs)))
      | inr ((leading, var), m) ↦ elim (Option-cases (index b'}' var)) [
        | inl n ↦ rw (m, n, pattern_loop) (omega arith)
        | inr ((name, behind), q) ↦
            let shorter : length behind < fuel = omega (
              arith,
              length-index b'{' (c ∷ cs) leading var m,
              length-index b'}' var name behind q,
            ) in
            rw (m, q, pattern_loop)
              (substitute-Fits coroutine (pattern_loop coroutine fuel behind) out leading name size
                total b e p k
                (λ out' size' e' p'.
                  pattern_loop-Fits coroutine fuel behind out' size' total b shorter e' p' k))
      ]
    ]

-- Whatever the string, `gm_pattern_string` returns, and what it has copied to the buffer of `size`
-- bytes, on success or failure, is shorter than the buffer, if the coroutine keeps to its room
-- whenever its name does.
pub gm_pattern_string-Fits :
    (coroutine : Coroutine) (string : Bytes) (size : ℕ)
    → IsBounded coroutine
    → 0 < size
    → size < 2 ^ 32
    → Fits size (gm_pattern_string coroutine string size)
unfolding gm_pattern_string
gm_pattern_string-Fits coroutine string size b p k =
    pattern_loop-Fits coroutine (length string + 1) string [] size size b (omega arith)
      (omega arith) p k
