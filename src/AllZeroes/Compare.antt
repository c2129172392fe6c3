-- ===== src/AllZeroes/Compare.antt =====
-- Where the comparison is right.
use rigcontrol.Common.{
  ℕ, zero, suc, ◌+◌, ◌*◌, ◌/◌, ◌%◌, ◌^◌, ◌≤◌, ◌<◌, ◌≡◌, ◌↔◌, ◌⊎◌, ◌∙◌, refl, ap, inl, inr, arith,
  Bool, true, false, ◌&&◌, Option, some, ltb, leb, ==_iff, ltb→lt, ◌==◌, if◌then◌else◌, Bool-cases,
}
use mathlib.Core.Path.{subst}
use rigcontrol.AllZeroes.{
  Memory, zero_half, zero_word, left, less, leading, words, bytes, compare_rest, gm_all_zeroes,
}

-- All bytes from an address on are zero.
abbrev pub Zeroes : Memory → ℕ → ℕ → Type 0
Zeroes memory at size = (i : ℕ) → i < size → memory (at + i) ≡ 0

-- A Boolean that tells whether they are.
abbrev pub Tells : Option Bool → Memory → ℕ → ℕ → Type 0
Tells r memory at size = (b : Bool) × (r ≡ some b) × ((b ≡ true) ↔ Zeroes memory at size)

Zeroes-suc :
    (memory : Memory) (at size : ℕ)
    → (memory at ≡ 0)
    → Zeroes memory (at + 1) size
    → Zeroes memory at (suc size)
Zeroes-suc memory at size e z zero h = ap memory {y = at} (omega arith) ∙ e
Zeroes-suc memory at size e z (suc i) h =
    ap memory {x = at + suc i} {y = at + 1 + i} (omega arith) ∙ z i (omega arith)

Zeroes-tail :
    (memory : Memory) (at size : ℕ)
    → Zeroes memory at (suc size)
    → (memory at ≡ 0) × Zeroes memory (at + 1) size
Zeroes-tail memory at size z = (
  ap memory {y = at + 0} (omega arith) ∙ z 0 (omega arith),
  λ i h. ap memory {x = at + 1 + i} {y = at + suc i} (omega arith) ∙ z (suc i) (omega arith),
)

pub and_cases : (a b : Bool) → ((a && b) ≡ true) ↔ ((a ≡ true) × (b ≡ true))
and_cases true b = (λ e. (refl, e), λ (e, f). f)
and_cases false b = (λ e. cc, λ (e, f). e)

Zeroes-suc_iff :
    (memory : Memory) (at size : ℕ) (byte rest : Bool)
    → ((byte ≡ true) ↔ (memory at ≡ 0))
    → ((rest ≡ true) ↔ Zeroes memory (at + 1) size)
    → ((byte && rest) ≡ true) ↔ Zeroes memory at (suc size)
Zeroes-suc_iff memory at size byte rest (f, g) (r, w) = (
  λ e. let (a, b) = (and_cases byte rest).0 e in Zeroes-suc memory at size (f a) (r b),
  λ z. let (a, b) = Zeroes-tail memory at size z in (and_cases byte rest).1 (g a, w b),
)

bytes_lem : (memory : Memory) (size at : ℕ) → (bytes size memory at ≡ true) ↔ Zeroes memory at size
unfolding bytes
bytes_lem memory zero at = (λ e i h. absurd (omega arith), λ z. refl)
bytes_lem memory (suc size) at =
    Zeroes-suc_iff memory at size _ _ (==_iff (memory at) 0) (bytes_lem memory size (at + 1))

Zeroes-empty : (memory : Memory) (at : ℕ) → (true ≡ true) ↔ Zeroes memory at 0
Zeroes-empty memory at = (λ e i h. absurd (omega arith), λ z. refl)

-- Four bytes, and those behind them.
Zeroes-four :
    (memory : Memory) (at size : ℕ)
    → memory at ≡ 0
    → memory (at + 1) ≡ 0
    → memory (at + 2) ≡ 0
    → memory (at + 2 + 1) ≡ 0
    → Zeroes memory (at + 4) size
    → Zeroes memory at (size + 4)
Zeroes-four memory at size a b c d z zero h = ap memory {y = at} (omega arith) ∙ a
Zeroes-four memory at size a b c d z (suc zero) h = b
Zeroes-four memory at size a b c d z (suc (suc zero)) h = c
Zeroes-four memory at size a b c d z (suc (suc (suc zero))) h =
    ap memory {x = at + 3} {y = at + 2 + 1} (omega arith) ∙ d
Zeroes-four memory at size a b c d z (suc (suc (suc (suc i)))) h =
    ap memory {x = at + suc (suc (suc (suc i)))} {y = at + 4 + i} (omega arith) ∙ z i (omega arith)

-- The word at an address is four bytes.
word_lem :
    (memory : Memory) (at size : ℕ) (rest : Bool)
    → ((rest ≡ true) ↔ Zeroes memory (at + 4) size)
    → ((zero_word memory at && rest) ≡ true) ↔ Zeroes memory at (size + 4)
word_lem memory at size rest (right, wrong) = (
  λ e.
      let (w, r) = (and_cases (zero_word memory at) rest).0 e in
      let (lo, hi) = (and_cases (zero_half memory at) (zero_half memory (at + 2))).0 w in
      let (a, b) = (and_cases (memory at == 0) (memory (at + 1) == 0)).0 lo in
      let (c, d) = (and_cases (memory (at + 2) == 0) (memory (at + 2 + 1) == 0)).0 hi in
      Zeroes-four memory at size ((==_iff _ _).0 a) ((==_iff _ _).0 b) ((==_iff _ _).0 c)
        ((==_iff _ _).0 d) (right r),
  λ z.
      let byte : (i : ℕ) → i < 4 → (memory (at + i) == 0) ≡ true =
        λ i h. (==_iff _ _).1 (z i (omega arith)) in
      let first : (memory at == 0) ≡ true =
        ap (λ x. memory x == 0) {x = at} {y = at + 0} (omega arith) ∙ byte 0 (omega arith) in
      let last : (memory (at + 2 + 1) == 0) ≡ true =
        ap (λ x. memory x == 0) {x = at + 2 + 1} {y = at + 3} (omega arith)
        ∙ byte 3 (omega arith) in
      let behind : Zeroes memory (at + 4) size = λ i h.
        ap memory {x = at + 4 + i} {y = at + (4 + i)} (omega arith) ∙ z (4 + i) (omega arith) in
      (and_cases (zero_word memory at) rest).1 (
        (and_cases (zero_half memory at) (zero_half memory (at + 2))).1 (
          (and_cases (memory at == 0) (memory (at + 1) == 0)).1 (first, byte 1 (omega arith)),
          (and_cases (memory (at + 2) == 0) (memory (at + 2 + 1) == 0)).1
              (byte 2 (omega arith), last),
        ),
        wrong behind,
      ),
)

some_and : (a b : Bool) → ◌≡◌ {A = Option Bool} (if a then some b else some false) (some (a && b))
some_and true b = refl
some_and false b = refl

Tells-word :
    (r : Option Bool) (memory : Memory) (at size : ℕ)
    → Tells r memory (at + 4) size
    → Tells (if zero_word memory at then r else some false) memory at (size + 4)
Tells-word r memory at size (b, e, h) =
    (zero_word memory at && b, rw e (some_and (zero_word memory at) b), word_lem memory at size b h)

pub words_lem :
    (fuel n : ℕ) (memory : Memory) (at : ℕ)
    → n < fuel
    → n * 4 < 2 ^ 32
    → Tells (words fuel memory at (n * 4)) memory at (n * 4)
unfolding words
words_lem zero n memory at f k = absurd (omega arith)
words_lem (suc fuel) zero memory at f k = (true, refl, Zeroes-empty memory at)
words_lem (suc fuel) (suc n) memory at f k =
    let size : less (suc n * 4) 4 ≡ n * 4 = omega arith in
    let not_done : (suc n * 4 == 0) ≡ false = ground arith in
    let grows : n * 4 + 4 ≡ suc n * 4 = omega arith in
    let word =
      Tells-word (words fuel memory (at + 4) (n * 4)) memory at (n * 4)
        (words_lem fuel n memory (at + 4) (omega arith) (omega arith)) in
    rw (not_done, size)
      (subst
        (λ s.
          Tells (if zero_word memory at then words fuel memory (at + 4) (n * 4) else some false)
            memory at s)
        grows word)

-- Without leading bytes the switch changes nothing.
leading-left :
    (memory : Memory) (at size : ℕ)
    → (size ≤ 4) ⊎ (at % 4 ≡ 0)
    → leading memory at size ≡ left at size
unfolding leading
leading-left memory at size (inl h) = let short : ltb 4 size ≡ false = ground arith in rw short refl
leading-left memory at size (inr h) = elim (Bool-cases (ltb 4 size)) [
  | inl e ↦ rw (e, h) refl
  | inr e ↦ rw e refl
]

compare_rest-short :
    (fuel : ℕ) (memory : Memory) (at size : ℕ)
    → size < 4
    → Tells (compare_rest fuel memory (left at size)) memory at size
unfolding compare_rest
compare_rest-short fuel memory at size h =
    let short : leb 4 size ≡ false = ground arith in
    (bytes size memory at, rw short refl, bytes_lem memory size at)

compare_rest-words :
    (n : ℕ) (memory : Memory) (at : ℕ)
    → 0 < n
    → n * 4 < 2 ^ 32
    → Tells (compare_rest (n * 4 + 1) memory (left at (n * 4))) memory at (n * 4)
unfolding compare_rest
compare_rest-words n memory at h k =
    let long : leb 4 (n * 4) ≡ true = ground arith in
    rw long (words_lem (n * 4 + 1) n memory at (omega arith) k)

-- An object that is shorter than a word, or is aligned and made of words, is compared right: the
-- comparison ends, and is true exactly if all of its bytes are zero, as the name of the function has
-- it and the comment on it does not. The size is a size_t.
pub gm_all_zeroes_iff :
    (memory : Memory) (at size : ℕ)
    → (size < 4) ⊎ ((at % 4 ≡ 0) × (size % 4 ≡ 0))
    → size < 2 ^ 32
    → Tells (gm_all_zeroes (size + 1) memory at size) memory at size
unfolding gm_all_zeroes leading compare_rest
gm_all_zeroes_iff memory at size shape bound = elim (Bool-cases (ltb size 4)) [
  | inl e ↦
      let short = ltb→lt size 4 e in
      rw (leading-left memory at size (inl (omega arith)))
        (compare_rest-short (size + 1) memory at size short)
  | inr e ↦ elim shape [
    | inl short ↦ absurd (ground arith)
    | inr (aligned, whole) ↦
        let size_is : size / 4 * 4 ≡ size = omega arith in
        let some_word : 0 < size / 4 = ground arith in
        rw (leading-left memory at size (inr aligned)) (
          subst (λ s. Tells (compare_rest (s + 1) memory (left at s)) memory at s) size_is
            (compare_rest-words (size / 4) memory at some_word (omega arith)))
  ]
]
