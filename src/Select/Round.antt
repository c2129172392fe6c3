-- ===== src/Select/Round.antt =====
-- select_task.c: a whole round of the select task, with the timer tasks, and any number of rounds.
pub mod Limit
pub mod Due
mod Tests
use rigcontrol.Common.{
  ℕ, zero, suc, ◌+◌, ◌-◌, ◌*◌, min, Bool, true, false, not, ◌&&◌, ◌||◌, Option, none, some, List,
  [], ◌∷◌, ltb, ◌==◌, if◌then◌else◌,
}
use rigcontrol.Select.{Entry, Table, Notice, scan, dispatch_loop, timeout_loop}

-- `struct timer_task`: a task without a procedure is a free place.
pub record TimerTask : Type 0 where
  pub when : ℕ
  pub procedure : Option ℕ
  pub data_pointer : ℕ

abbrev pub free_task : TimerTask
free_task = record { when = 0; procedure = none; data_pointer = 0 }

-- What `select` reports: the three sets and that some are ready, that it timed out, or a failure.
pub data Selected : Type 0 where
  ready : (ℕ → Entry) → Selected
  timed_out bad_descriptor failed : Selected

-- The statics, and how often `GM_FAIL` was called.
pub record Task : Type 0 where
  pub table : Table
  pub timer_tasks : List TimerTask
  pub failures : ℕ

-- The time of a round, the descriptors that `lseek` finds open, and what `select` gives.
pub record Turn : Type 0 where
  pub now : ℕ
  pub is_open : ℕ → Bool
  pub selected : Selected

abbrev pub absurdly_long : ℕ
absurdly_long = 365 * 24 * 60 * 60 * 1000000

abbrev pub is_in : List ℕ → ℕ → Bool
is_in [] i = false
is_in (j ∷ js) i = i == j || is_in js i

-- `handle` runs a handler, `call` the procedure of a timer task; both may register and unregister.
module _ (handle : ℕ → Notice → Table → Table) (call : ℕ → ℕ → Table → Table) where
  -- One timer task with its procedure, and the time to sleep so far. It is run while its time is
  -- still to come.
  unfoldable pub run_timer : ℕ → TimerTask → Option ℕ → ℕ → Table → TimerTask × ℕ × Table
  run_timer now task none min_time t = (task, min_time, t)
  run_timer now task (some procedure) min_time t =
      if ltb now task.when
      then (free_task, min_time, call procedure task.data_pointer t)
      else (task, min (now - task.when) min_time, t)

  -- The loop over the timer tasks.
  unfoldable pub run_timers : ℕ → List TimerTask → ℕ → Table → List TimerTask × ℕ × Table
  unfolding run_timer
  run_timers now [] min_time t = ([], min_time, t)
  run_timers now (task ∷ tasks) min_time t =
      let this = run_timer now task task.procedure min_time t in
      let rest = run_timers now tasks (this.1) (this.2) in (this.0 ∷ rest.0, rest.1, rest.2)

  -- What is done with the result of `select`, with 101 passes for the loops.
  unfoldable pub after_select : List ℕ → ℕ → Selected → Task → Option Task
  unfolding dispatch_loop timeout_loop
  after_select monitored now (ready sets) s =
      elim (dispatch_loop handle (is_in monitored) now sets 101 0 s.table) [
        | none ↦ none
        | some t ↦ some (record s { table = t })
      ]
  after_select monitored now timed_out s =
      elim (timeout_loop handle (is_in monitored) now 101 0 false s.table) [
        | none ↦ none
        | some t ↦ some (record s { table = t })
      ]
  after_select monitored now bad_descriptor s = some s
  after_select monitored now failed s = some (record s { failures = suc s.failures })

  -- A round, and the time that `select` is given.
  unfoldable pub select_round : Turn → Task → Option (Task × ℕ)
  unfolding scan run_timers after_select
  select_round turn s =
      let scanned = scan turn.is_open s.table.entries turn.now s.table.fd_limit 0 absurdly_long in
      let timers = run_timers turn.now s.timer_tasks (scanned.1) s.table in
      elim (after_select (scanned.0) turn.now turn.selected
        (record s { table = timers.2; timer_tasks = timers.0 })) [
          | none ↦ none
          | some s' ↦ some (s', timers.1)
        ]

  -- The task, for as many rounds as there are turns.
  unfoldable pub select_task : List Turn → Task → Option Task
  unfolding select_round
  select_task [] s = some s
  select_task (turn ∷ turns) s = elim (select_round turn s) [
    | none ↦ none
    | some (s', slept) ↦ select_task turns s'
  ]
