-- ===== src/TimerToHuman/Tests.antt =====
-- Two hours and some minutes, and a time of more than a day.
use rigcontrol.Common.{◌*◌, ◌+◌, ◌/◌, ◌≡◌, refl, arith, some, codes}
use rigcontrol.TimerToHuman.{second, minute, hour, day, decimal, gm_timer_to_human}
use rigcontrol.TimerToHuman.ReadBack.{read_time, read_time-gm_timer_to_human}

printed : gm_timer_to_human (2 * hour + 34 * minute + 5 * second) 64 ≡ codes "02:34:05"
unfolding gm_timer_to_human
printed = refl

-- Behind a number of days there is no time.
days_only : gm_timer_to_human (12 * day + 2 * hour) 64 ≡ codes "12 days, "
unfolding gm_timer_to_human decimal
days_only = refl

read_time-gm_timer_to_human_example :
    read_time (gm_timer_to_human (2 * hour + 5) 9) ≡ some ((2 * hour + 5) / second)
read_time-gm_timer_to_human_example =
    read_time-gm_timer_to_human (2 * hour + 5) 9 (omega arith) (omega arith)
