-- ===== src/TimerToHuman.antt =====
-- components/generic_main/timer_to_human.c: a duration in microseconds as text, and the commands
-- uptime and date, which print it.
pub mod ReadBack
mod Tests
use rigcontrol.Common.{
  ℕ, zero, suc, ◌+◌, ◌-◌, ◌*◌, ◌/◌, ◌%◌, Bool, true, false, Option, none, some, List, [], ◌∷◌, ◌++◌,
  Bytes, codes, take, ltb, ◌==◌, if◌then◌else◌,
}

abbrev pub second : ℕ
second = 1000000

abbrev pub minute : ℕ
minute = second * 60

abbrev pub hour : ℕ
hour = minute * 60

abbrev pub day : ℕ
day = hour * 24

-- `%d`: the digits of a number, as many as the first argument.
unfoldable pub decimal : ℕ → ℕ → Bytes
decimal zero n = []
decimal (suc fuel) n =
    let digit = (b'0' + n % 10) ∷ [] in
    let higher = decimal fuel (n / 10) in if ltb n 10 then digit else higher ++ digit

-- `%02d`, of a number below 100.
abbrev pub two_digits : ℕ → Bytes
two_digits n = (b'0' + n / 10) ∷ (b'0' + n % 10) ∷ []

-- `snprintf`: what the text leaves in a buffer of a size.
abbrev pub snprintf : ℕ → Bytes → Bytes
snprintf size text = take (size - 1) text

abbrev pub time_of_day : ℕ → Bytes
time_of_day t =
    two_digits (t % day / hour)
    ++ (b':' ∷ (two_digits (t % hour / minute) ++ (b':' ∷ two_digits (t % minute / second))))

-- For times that are not negative. `size -= size` leaves no room behind the days; the days of a time
-- of 64 bits have nine digits at most.
unfoldable pub gm_timer_to_human : ℕ → ℕ → Bytes
unfolding decimal
gm_timer_to_human t size =
    if ltb 0 (t / day)
    then snprintf size (decimal 9 (t / day) ++ codes " days, ") ++ snprintf 0 (time_of_day t)
    else snprintf size (time_of_day t)

-- `run` of uptime.c: a status and what is printed; `errors` is the number of errors of `arg_parse`.
unfoldable pub uptime : ℕ → ℕ → ℕ × Bytes
unfolding gm_timer_to_human
uptime errors now = if ltb 0 errors then (1, []) else (0, gm_timer_to_human now 64 ++ b'\n' ∷ [])

-- `run` of date.c: `date` is what `strftime` makes of the clock. A clock that was never synchronised
-- is told from the others by -1, here `none`.
abbrev pub last_synchronized : ℕ → Option ℕ → Bytes
unfolding gm_timer_to_human
last_synchronized now none = codes "never"
last_synchronized now (some at) = gm_timer_to_human (now - at) 64 ++ codes " ago"

unfoldable pub date : ℕ → Bytes → ℕ → Option ℕ → ℕ × Bytes
unfolding last_synchronized
date errors clock now synchronized = if ltb 0 errors then (1, []) else (
  0,
  clock ++ (codes ", last synchronized: " ++ (last_synchronized now synchronized ++ b'\n' ∷ [])),
)
