-- ===== src/Uri/Decode/Total.antt =====
-- What `gm_uri_decode` gives back on every input: soundness and completeness.
use mathlib.Core.List.{append_cancel_right}
use rigcontrol.Common.{
  ℕ, ◌+◌, ◌≤◌, ◌<◌, ◌≡◌, ◌≢◌, ◌↔◌, refl, sym, ap, ◌∙◌, arith, false, some, [], ◌∷◌, ◌++◌,
  append_assoc, append-nil, Bytes, length, length-append, ◌==◌, Bool-cases, Option-cases, inl, inr,
}
use rigcontrol.Uri.{hexit, Decoded, escaped, decode_loop, gm_uri_decode}
use rigcontrol.Uri.Decode.{
  Decodes, plain, stop, escape, accept, decode_loop-plain, decode_loop-escape, decode_loop-Decodes,
}

-- What a success of the loop means.
record Succeeds (size : ℕ) (s out : Bytes) : Type 0 where
  decoded : Bytes
  decodes : Decodes s decoded
  fits : length out + length decoded ≤ size
  result : decode_loop size s out ≡ accept (out ++ decoded)

plain-fits :
    (size c : ℕ) (s out : Bytes)
    → c ≢ b'%'
    → (decode_loop size (c ∷ s) out).failed ≡ false
    → length out < size
unfolding decode_loop
plain-fits size c [] out h k = ground (arith, length-append out (c ∷ []))
plain-fits size c (d ∷ []) out h k = ground (arith, length-append out (c ∷ []))
plain-fits size c (d ∷ e ∷ s) out h k = ground (arith, length-append out (c ∷ []))

Succeeds-plain :
    (size c : ℕ) (s out : Bytes)
    → c ≢ b'%'
    → length out < size
    → Succeeds size s (out ++ c ∷ [])
    → Succeeds size (c ∷ s) out
Succeeds-plain size c s out n k r = record {
  decoded = c ∷ r.decoded;
  decodes = plain n r.decodes;
  fits = omega (arith, r.fits, length-append out (c ∷ []));
  result =
      decode_loop-plain size c s out n k
      ∙ (r.result ∙ ap accept (append_assoc out (c ∷ []) r.decoded));
}

-- The digits of an escape that succeeds.
record EscapeOk (size d e : ℕ) (out : Bytes) : Type 0 where
  first : ℕ
  second : ℕ
  first_digit : hexit d ≡ some first
  second_digit : hexit e ≡ some second
  fits : length out < size

escape-ok :
    (size c d e : ℕ) (s out : Bytes)
    → c ≡ b'%'
    → (decode_loop size (c ∷ d ∷ e ∷ s) out).failed ≡ false
    → EscapeOk size d e out
unfolding decode_loop
escape-ok size c d e s out m h = elim (Option-cases (hexit d)) [
  | inl p ↦ absurd (ground (arith, p))
  | inr (x, p) ↦ elim (Option-cases (hexit e)) [
    | inl q ↦ absurd (ground (arith, p, q))
    | inr (y, q) ↦ record {
      first = x;
      second = y;
      first_digit = p;
      second_digit = q;
      fits = ground (arith, p, q, length-append out (escaped x y ∷ []));
    }
  ]
]

Succeeds-escape :
    (size c d e : ℕ) (s out : Bytes)
    → c ≡ b'%'
    → (k : EscapeOk size d e out) → Succeeds size s (out ++ escaped k.first k.second ∷ [])
    → Succeeds size (c ∷ d ∷ e ∷ s) out
Succeeds-escape size c d e s out m k r =
    let b = escaped k.first k.second in
    record {
      decoded = b ∷ r.decoded;
      decodes = escape m k.first_digit k.second_digit r.decodes;
      fits = omega (arith, r.fits, length-append out (b ∷ []));
      result =
          decode_loop-escape size c d e k.first k.second s out m k.first_digit k.second_digit k.fits
          ∙ (r.result ∙ ap accept (append_assoc out (b ∷ []) r.decoded));
    }

decode_loop-Succeeds :
    (size : ℕ) (s out : Bytes)
    → length out ≤ size
    → (decode_loop size s out).failed ≡ false
    → Succeeds size s out
unfolding decode_loop
decode_loop-Succeeds size [] out k h = record {
  decoded = [];
  decodes = stop;
  fits = omega arith;
  result = rw (append-nil out) refl;
}
decode_loop-Succeeds size (c ∷ []) out k h = elim (Bool-cases (c == b'%')) [
  | inl m ↦ absurd (ground arith)
  | inr m ↦
      let f = plain-fits size c [] out (ground arith) h in
      Succeeds-plain size c [] out (ground arith) f (
        decode_loop-Succeeds size [] (out ++ c ∷ []) (omega (arith, length-append out (c ∷ [])))
          refl)
]
decode_loop-Succeeds size (c ∷ d ∷ []) out k h = elim (Bool-cases (c == b'%')) [
  | inl m ↦ absurd (ground arith)
  | inr m ↦
      let n : c ≢ b'%' = ground arith in
      let f = plain-fits size c (d ∷ []) out n h in
      Succeeds-plain size c (d ∷ []) out n f (
        decode_loop-Succeeds size (d ∷ []) (out ++ c ∷ [])
          (omega (arith, length-append out (c ∷ [])))
          (rw (decode_loop-plain size c (d ∷ []) out n f) at h))
]
decode_loop-Succeeds size (c ∷ d ∷ e ∷ s) out k h = elim (Bool-cases (c == b'%')) [
  | inl m ↦
      let n : c ≡ b'%' = ground arith in
      let w = escape-ok size c d e s out n h in
      let b = escaped w.first w.second in
      Succeeds-escape size c d e s out n w (
        decode_loop-Succeeds size s (out ++ b ∷ [])
          (omega (arith, w.fits, length-append out (b ∷ [])))
          (ap (λ (r : Decoded). r.failed)
              (sym (
                decode_loop-escape size c d e w.first w.second s out n w.first_digit w.second_digit
                  w.fits))
            ∙ h))
  | inr m ↦
      let n : c ≢ b'%' = ground arith in
      let f = plain-fits size c (d ∷ e ∷ s) out n h in
      Succeeds-plain size c (d ∷ e ∷ s) out n f (
        decode_loop-Succeeds size (d ∷ e ∷ s) (out ++ c ∷ [])
          (omega (arith, length-append out (c ∷ [])))
          (ap (λ (r : Decoded). r.failed) (sym (decode_loop-plain size c (d ∷ e ∷ s) out n f)) ∙ h))
]

-- `gm_uri_decode` returns 0 with the bytes `out` and a null stored, exactly if the URI decodes to
-- `out` and `out` has at most `size` bytes.
pub gm_uri_decode_iff :
    (uri out : Bytes) (size : ℕ)
    → (gm_uri_decode uri size ≡ accept out) ↔ (Decodes uri out × (length out ≤ size))
unfolding gm_uri_decode
gm_uri_decode_iff uri out size = (sound, λ k. decode_loop-Decodes size [] k.0 (omega (arith, k.1)))
  where
    sound : decode_loop size uri [] ≡ accept out → Decodes uri out × (length out ≤ size)
    sound h =
        let r = decode_loop-Succeeds size uri [] (omega arith) (ap (λ (d : Decoded). d.failed) h) in
        let same : r.decoded ≡ out =
          append_cancel_right r.decoded out (0 ∷ [])
            (ap (λ (d : Decoded). d.stored) (sym r.result ∙ h)) in
        (rw (← same) r.decodes, rw (← same) (omega (arith, r.fits)))
