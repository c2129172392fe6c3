-- ===== src/Uri/Decode/Written.antt =====
-- How far `gm_uri_decode` writes, and what it makes of an escape.
use rigcontrol.Common.{
  ℕ, ◌+◌, ◌-◌, ◌*◌, ◌/◌, ◌%◌, ◌≤◌, ◌<◌, ◌≡◌, ◌↔◌, refl, ap, ◌∙◌, arith, some, [], ◌∷◌, ◌++◌, Bytes,
  Free, length, length-append, ltb, ◌==◌, if◌then◌else◌, Bool-cases, Option-cases, inl, inr,
}
use rigcontrol.Uri.{hexit, escaped, clear_first, decode_loop, gm_uri_decode}
use rigcontrol.Uri.Decode.{stop, escape, accept, decode_loop-Decodes}

length-clear_first : (out : Bytes) → length (clear_first out) ≤ length out + 1
unfolding clear_first
length-clear_first [] = omega arith
length-clear_first (b ∷ out) = omega arith

decode_loop_bounds :
    (size : ℕ) (s out : Bytes)
    → length out ≤ size
    → length (decode_loop size s out).stored ≤ size + 1
unfolding decode_loop
decode_loop_bounds size [] out k = omega (arith, length-append out (0 ∷ []))
decode_loop_bounds size (c ∷ []) out k =
    let out' = out ++ c ∷ [] in
    ground (arith, length-append out (c ∷ []), length-append out' (0 ∷ []), length-clear_first out)
decode_loop_bounds size (c ∷ d ∷ []) out k =
    let out' = out ++ c ∷ [] in
    ground (
      arith,
      length-append out (c ∷ []),
      length-clear_first out,
      decode_loop_bounds size (d ∷ []) out',
    )
decode_loop_bounds size (c ∷ d ∷ e ∷ s) out k = elim (Bool-cases (c == b'%')) [
  | inr m ↦
      ground
        (arith, length-append out (c ∷ []), decode_loop_bounds size (d ∷ e ∷ s) (out ++ c ∷ []))
  | inl m ↦ elim (Option-cases (hexit d)) [
    | inl p ↦ ground (arith, length-clear_first out)
    | inr (x, p) ↦ elim (Option-cases (hexit e)) [
      | inl q ↦ ground (arith, length-clear_first out)
      | inr (y, q) ↦
          rw (m, p, q)
            (ground (
              arith,
              length-append out (escaped x y ∷ []),
              decode_loop_bounds size s (out ++ escaped x y ∷ []),
            ))
    ]
  ]
]

-- Whatever the URI, `gm_uri_decode` stores at most one byte behind the buffer of `size` bytes.
pub gm_uri_decode_bounds :
    (uri : Bytes) (size : ℕ) → length (gm_uri_decode uri size).stored ≤ size + 1
unfolding gm_uri_decode
gm_uri_decode_bounds uri size = decode_loop_bounds size uri [] (omega arith)

plain_overrun :
    (size : ℕ) (s out : Bytes)
    → Free b'%' s
    → length out ≤ size
    → size ≤ length out + length s
    → length (decode_loop size s out).stored ≡ size + 1
unfolding decode_loop
plain_overrun size [] out f k h = omega (arith, length-append out (0 ∷ []))
plain_overrun size (c ∷ []) out (p, f) k h =
    let out' = out ++ c ∷ [] in
    ground (arith, length-append out (c ∷ []), length-append out' (0 ∷ []))
plain_overrun size (c ∷ d ∷ []) out (p, f) k h =
    ground (arith, length-append out (c ∷ []), plain_overrun size (d ∷ []) (out ++ c ∷ []) f)
plain_overrun size (c ∷ d ∷ e ∷ s) out (p, f) k h =
    ground (arith, length-append out (c ∷ []), plain_overrun size (d ∷ e ∷ s) (out ++ c ∷ []) f)

-- The test of the buffer's end comes too late: every URI of `size` bytes or more, with no escape
-- in it, makes `gm_uri_decode` store a byte behind the buffer.
pub gm_uri_decode_overrun :
    (uri : Bytes) (size : ℕ)
    → Free b'%' uri
    → size ≤ length uri
    → length (gm_uri_decode uri size).stored ≡ size + 1
unfolding gm_uri_decode
gm_uri_decode_overrun uri size f h = plain_overrun size uri [] f (omega arith) (omega arith)

-- The escape that stands for a byte in a URI.
abbrev pub hex_digit : ℕ → ℕ
hex_digit n = if ltb n 10 then b'0' + n else b'a' + (n - 10)

abbrev pub percent : ℕ → Bytes
percent c = b'%' ∷ hex_digit (c / 16) ∷ hex_digit (c % 16) ∷ []

hexit-hex_digit : (n : ℕ) → n < 16 → hexit (hex_digit n) ≡ some n
unfolding hexit
hexit-hex_digit n h = ground arith

-- The first digit of an escape counts ten: the escape of a byte is decoded to ten times its high
-- digit and its low digit, which is that byte only below 16.
pub gm_uri_decode-percent :
    (c size : ℕ)
    → c < 256
    → 0 < size
    → (gm_uri_decode (percent c) size ≡ accept ((c / 16 * 10 + c % 16) ∷ []))
      × ((c / 16 * 10 + c % 16 ≡ c) ↔ (c < 16))
unfolding gm_uri_decode
gm_uri_decode-percent c size h k =
    let small : (c / 16 * 10 + c % 16) % 256 ≡ c / 16 * 10 + c % 16 = omega arith in
    (
      decode_loop-Decodes size []
            (escape refl (hexit-hex_digit (c / 16) (omega arith))
              (hexit-hex_digit (c % 16) (omega arith)) stop)
            (omega arith)
          ∙ ap (λ b. accept (b ∷ [])) small,
      (λ e. omega arith, λ e. omega arith),
    )
