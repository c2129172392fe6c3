-- ===== src/Uri/Decode.antt =====
-- `gm_uri_decode`: which strings it decodes and to what, and how far it writes.
pub mod Total
pub mod Written
use rigcontrol.Common.{
  ℕ, zero, suc, ◌+◌, ◌-◌, ◌*◌, ◌/◌, ◌%◌, ◌≤◌, ◌<◌, ◌≡◌, ◌≢◌, ◌↔◌, refl, sym, ap, ◌∙◌, arith, Bool,
  true, false, Option, none, some, List, [], ◌∷◌, ◌++◌, append_assoc, append-nil, Bytes, Free, All,
  length, length-append, ltb, leb, ◌==◌, if◌then◌else◌, Bool-cases, Option-cases, inl, inr,
}
use rigcontrol.Uri.{hexit, Decoded, escaped, decode_loop, gm_uri_decode}

-- What a URI stands for, as the code has it: two hexadecimal digits count ten for the first.
pub data Decodes : Bytes → Bytes → Type 0 where
  stop : Decodes [] []
  plain : {c : ℕ} {s out : Bytes} → c ≢ b'%' → Decodes s out → Decodes (c ∷ s) (c ∷ out)
  escape :
      {c d e x y : ℕ} {s out : Bytes}
      → c ≡ b'%'
      → hexit d ≡ some x
      → hexit e ≡ some y
      → Decodes s out
      → Decodes (c ∷ d ∷ e ∷ s) (escaped x y ∷ out)

abbrev pub accept : Bytes → Decoded
accept out = record { failed = false; stored = out ++ 0 ∷ [] }

-- The loop's two ways on, for any string: a plain byte and an escape.
pub decode_loop-plain :
    (size c : ℕ) (s out : Bytes)
    → c ≢ b'%'
    → length out < size
    → decode_loop size (c ∷ s) out ≡ decode_loop size s (out ++ c ∷ [])
unfolding decode_loop
decode_loop-plain size c [] out h k = ground (arith, length-append out (c ∷ []))
decode_loop-plain size c (d ∷ []) out h k = ground (arith, length-append out (c ∷ []))
decode_loop-plain size c (d ∷ e ∷ s) out h k = ground (arith, length-append out (c ∷ []))

pub decode_loop-escape :
    (size c d e x y : ℕ) (s out : Bytes)
    → c ≡ b'%'
    → hexit d ≡ some x
    → hexit e ≡ some y
    → length out < size
    → decode_loop size (c ∷ d ∷ e ∷ s) out ≡ decode_loop size s (out ++ escaped x y ∷ [])
unfolding decode_loop
decode_loop-escape size c d e x y s out h p q k =
    let long : ltb size (length (out ++ escaped x y ∷ [])) ≡ false =
      ground (arith, length-append out (escaped x y ∷ [])) in
    let mark : (c == b'%') ≡ true = ground arith in rw (mark, p, q, long) refl

pub decode_loop-Decodes :
    (size : ℕ) (out : Bytes) {s ds : Bytes}
    → Decodes s ds
    → length out + length ds ≤ size
    → decode_loop size s out ≡ accept (out ++ ds)
unfolding decode_loop
decode_loop-Decodes size out stop h = rw (append-nil out) refl
decode_loop-Decodes size out (plain {c} {s} {out = ds} n t) h =
    decode_loop-plain size c s out n (omega arith)
    ∙ (decode_loop-Decodes size (out ++ c ∷ []) t (omega (arith, length-append out (c ∷ [])))
        ∙ ap accept (append_assoc out (c ∷ []) ds))
decode_loop-Decodes size out (escape {c} {d} {e} {x} {y} {s} {out = ds} m p q t) h =
    let b = escaped x y in
    decode_loop-escape size c d e x y s out m p q (omega arith)
    ∙ (decode_loop-Decodes size (out ++ b ∷ []) t (omega (arith, length-append out (b ∷ [])))
        ∙ ap accept (append_assoc out (b ∷ []) ds))
