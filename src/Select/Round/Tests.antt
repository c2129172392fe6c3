-- ===== src/Select/Round/Tests.antt =====
-- Two rounds with a descriptor whose timer runs out, and a timer task that is due.
use rigcontrol.Common.{ℕ, ◌≡◌, arith, true, some, List, [], ◌∷◌, ◌==◌, if◌then◌else◌}
use rigcontrol.Select.{Table, Notice, cleared}
use rigcontrol.Select.Limit.{IsLimited}
use rigcontrol.Select.Round.{TimerTask, timed_out, Task, Turn, select_task}
use rigcontrol.Select.Round.Limit.{select_task-IsLimited}

abbrev table : Table
table = record {
  fd_limit = 3;
  entries = λ i.
      if i == 2
      then record cleared { readable = true; handler = some 1; timeout = 5000000 }
      else cleared;
}

abbrev due : List TimerTask
due = record { when = 10; procedure = some 4; data_pointer = 0 } ∷ []

abbrev asleep : Task
asleep = record { table = table; timer_tasks = due; failures = 0 }

abbrev turns : List Turn
turns =
    record { now = 1000; is_open = λ i. true; selected = timed_out }
    ∷ record { now = 6000000; is_open = λ i. true; selected = timed_out }
    ∷ []

abbrev ignore : ℕ → Notice → Table → Table
ignore h notice t = t

abbrev ignore_call : ℕ → ℕ → Table → Table
ignore_call p data_pointer t = t

table-IsLimited : IsLimited table
table-IsLimited = ((λ fd e. ground (arith, e)), omega arith)

select_task-IsLimited_example :
    (s : Task) × (select_task ignore ignore_call turns asleep ≡ some s) × IsLimited s.table
select_task-IsLimited_example =
    select_task-IsLimited ignore ignore_call (λ h notice t l. l) (λ p d t l. l) turns asleep
      table-IsLimited
