-- ===== src/AllZeroes/Misses.antt =====
-- Where the comparison is wrong: behind a leading half word, and on a size that is no multiple of
-- four.
use rigcontrol.Common.{
  ℕ, zero, suc, ◌+◌, ◌-◌, ◌*◌, ◌/◌, ◌%◌, ◌^◌, ◌<◌, ◌≡◌, ◌≢◌, ◌∙◌, refl, ap, arith, Bool, true,
  false, Option, none, some, ltb, leb, ◌==◌, ==_iff,
}
use rigcontrol.AllZeroes.{
  Memory, zero_half, zero_word, less, leading, words, compare_rest, gm_all_zeroes,
}
use rigcontrol.AllZeroes.Compare.{Zeroes, Tells, and_cases, words_lem}

zero_half-Zeroes :
    (memory : Memory) (at : ℕ) → memory at ≡ 0 → memory (at + 1) ≡ 0 → zero_half memory at ≡ true
zero_half-Zeroes memory at a b =
    (and_cases (memory at == 0) (memory (at + 1) == 0)).1 ((==_iff _ _).1 a, (==_iff _ _).1 b)

told_true :
    (r : Option Bool) (memory : Memory) (at size : ℕ)
    → Tells r memory at size
    → Zeroes memory at size
    → r ≡ some true
told_true r memory at size (b, e, h) z = e ∙ ap some (h.1 z)

-- An object that begins in the middle of a word, whose size is not a multiple of four but even and
-- above four, is taken for zero whatever its last byte is, if all of its other bytes are zero: the
-- address is moved by one for a half word.
pub gm_all_zeroes_misses :
    (memory : Memory) (at size : ℕ)
    → at % 4 ≡ 2
    → size % 4 ≡ 2
    → 4 < size
    → size < 2 ^ 32
    → Zeroes memory at (size - 1)
    → gm_all_zeroes (size + 1) memory at size ≡ some true
unfolding gm_all_zeroes leading compare_rest
gm_all_zeroes_misses memory at size half rest long bound z =
    let is_long : ltb 4 size ≡ true = ground arith in
    let first : memory at ≡ 0 = ap memory {x = at} {y = at + 0} (omega arith) ∙ z 0 (omega arith) in
    let is_zero = zero_half-Zeroes memory at first (z 1 (omega arith)) in
    let size_is : less size 2 ≡ (size - 2) / 4 * 4 = omega arith in
    let has_word : leb 4 ((size - 2) / 4 * 4) ≡ true = ground arith in
    let behind : Zeroes memory (at + 1) ((size - 2) / 4 * 4) = λ i h.
      ap memory {x = at + 1 + i} {y = at + (1 + i)} (omega arith) ∙ z (1 + i) (omega arith) in
    rw (is_long, half, is_zero, size_is, has_word)
      (told_true _ memory (at + 1) ((size - 2) / 4 * 4)
        (words_lem (size + 1) ((size - 2) / 4) memory (at + 1) (omega arith) (omega arith)) behind)

words_run_on :
    (fuel : ℕ) (memory : Memory) (at size : ℕ)
    → size % 4 ≢ 0
    → size < 2 ^ 32
    → ((i : ℕ) → memory i ≡ 0)
    → words fuel memory at size ≡ none
unfolding words
words_run_on zero memory at size n k z = refl
words_run_on (suc fuel) memory at size n k z =
    let not_done : (size == 0) ≡ false = ground arith in
    let is_zero : zero_word memory at ≡ true =
      (and_cases (zero_half memory at) (zero_half memory (at + 2))).1 (
        zero_half-Zeroes memory at (z at) (z (at + 1)),
        zero_half-Zeroes memory (at + 2) (z (at + 2)) (z (at + 2 + 1)),
      ) in
    rw (not_done, is_zero)
      (words_run_on fuel memory (at + 4) (less size 4) (λ e. n (omega arith)) (omega arith) z)

-- On an aligned object of more than four bytes whose size is not a multiple of four the comparison
-- never ends if all memory is zero, since its size is never 0: no fuel is enough.
pub gm_all_zeroes_runs_on :
    (fuel : ℕ) (memory : Memory) (at size : ℕ)
    → at % 4 ≡ 0
    → size % 4 ≢ 0
    → 4 < size
    → size < 2 ^ 32
    → ((i : ℕ) → memory i ≡ 0)
    → gm_all_zeroes fuel memory at size ≡ none
unfolding gm_all_zeroes leading compare_rest
gm_all_zeroes_runs_on fuel memory at size aligned rest long bound z =
    let is_long : ltb 4 size ≡ true = ground arith in
    let has_word : leb 4 size ≡ true = ground arith in
    rw (is_long, aligned, has_word) (words_run_on fuel memory at size rest bound z)
