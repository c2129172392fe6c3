-- ===== src/TimerToHuman/ReadBack.antt =====
-- Below a day the text tells the duration.
use rigcontrol.Common.{
  ℕ, ◌+◌, ◌-◌, ◌*◌, ◌/◌, ◌%◌, ◌≤◌, ◌<◌, ◌≡◌, ◌∙◌, ap, arith, false, Option, none, some, [], ◌∷◌,
  Bytes, take, take_all, ltb,
}
use rigcontrol.TimerToHuman.{second, minute, hour, day, time_of_day, gm_timer_to_human}

-- A reader of hh:mm:ss: the seconds.
unfoldable pub read_time : Bytes → Option ℕ
read_time (a ∷ b ∷ x ∷ c ∷ d ∷ y ∷ e ∷ f ∷ []) = some (
    ((a - b'0') * 10 + (b - b'0')) * 3600
    + ((c - b'0') * 10 + (d - b'0')) * 60
    + ((e - b'0') * 10 + (f - b'0')))
read_time _ = none

digits : (n : ℕ) → (b'0' + n / 10 - b'0') * 10 + (b'0' + n % 10 - b'0') ≡ n
digits n = omega arith

parts :
    (t : ℕ)
    → t < day
    → t % day / hour * 3600 + t % hour / minute * 60 + t % minute / second ≡ t / second
parts t h = omega (arith, h)

-- A duration of less than a day is printed as text that is read back as its whole seconds, if the
-- buffer has at least nine bytes.
pub read_time-gm_timer_to_human :
    (t size : ℕ) → t < day → 9 ≤ size → read_time (gm_timer_to_human t size) ≡ some (t / second)
unfolding read_time gm_timer_to_human
read_time-gm_timer_to_human t size h k =
    let short : ltb 0 (t / day) ≡ false = ground (arith, h) in
    let fits : take (size - 1) (time_of_day t) ≡ time_of_day t =
      take_all (size - 1) (time_of_day t) (omega (arith, k)) in
    rw (short, gm_timer_to_human)
      (ap read_time fits
        ∙ ap some (
            rw (digits (t % day / hour), digits (t % hour / minute), digits (t % minute / second))
              (parts t h)))
