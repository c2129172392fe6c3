-- ===== src/Select/Sleep.antt =====
-- The time that the select task sleeps.
use rigcontrol.Common.{
  ℕ, zero, suc, ◌+◌, ◌-◌, ◌≤◌, ◌<◌, ◌≡◌, ◌≢◌, ◌∙◌, sym, ap, inl, inr, arith, Bool, true, ◌==◌,
  ==_iff, Bool-cases,
}
use rigcontrol.Select.{Entry, is_set, sleep_at, scan}

module _ (is_open : ℕ → Bool) (es : ℕ → Entry) (now : ℕ) where
  scan_le : (n i min_time : ℕ) → (scan is_open es now n i min_time).1 ≤ min_time
  unfolding scan
  scan_le zero i m = omega arith
  scan_le (suc n) i m =
      ground (arith, scan_le n (i + 1) m, scan_le n (i + 1) (sleep_at is_open es now i m))

  -- The task sleeps no longer than to the timer of any open descriptor that is set and below the
  -- limit, even if the scan stops at an earlier one, and no longer than the time it starts from.
  pub scan-sleep :
      (n i min_time fd : ℕ)
      → i ≤ fd
      → fd < i + n
      → is_set (es fd) ≡ true
      → is_open fd ≡ true
      → (es fd).timeout ≢ 0
      → ((scan is_open es now n i min_time).1 ≤ (es fd).timeout - now)
        × ((scan is_open es now n i min_time).1 ≤ min_time)
  unfolding scan
  scan-sleep zero i m fd le less set is_op timer = absurd (omega (arith, le, less))
  scan-sleep (suc n) i m fd le less set is_op timer = elim (Bool-cases (fd == i)) [
    | inl e ↦
        let same : fd ≡ i = (==_iff _ _).0 e in
        let here : is_set (es i) ≡ true = ap (λ j. is_set (es j)) (sym same) ∙ set in
        let opened : is_open i ≡ true = ap is_open (sym same) ∙ is_op in
        let timed : (es fd).timeout ≡ (es i).timeout = ap (λ j. (es j).timeout) same in
        (
          ground
              (arith, here, opened, timed, timer, scan_le n (i + 1) (sleep_at is_open es now i m)),
          scan_le (suc n) i m,
        )
    | inr e ↦
        let skipped =
          scan-sleep n (i + 1) m fd (ground (arith, e, le)) (omega (arith, less)) set is_op timer in
        let watched =
          scan-sleep n (i + 1) (sleep_at is_open es now i m) fd (ground (arith, e, le))
            (omega (arith, less)) set is_op timer in
        (ground (arith, skipped.0, watched.0), scan_le (suc n) i m)
  ]
