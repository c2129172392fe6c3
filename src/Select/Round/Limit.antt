-- ===== src/Select/Round/Limit.antt =====
-- The select task goes on for ever, within its arrays.
use rigcontrol.Common.{
  ℕ, suc, ◌-◌, ◌≤◌, ◌≡◌, ◌≢◌, refl, inl, inr, arith, true, Option, none, some, List, [], ◌∷◌, ltb,
  Bool-cases,
}
use rigcontrol.Select.{Table, Notice, is_set, scan}
use rigcontrol.Select.Limit.{IsLimited, loops-IsLimited}
use rigcontrol.Select.Sleep.{scan-sleep}
use rigcontrol.Select.Round.{
  TimerTask, Selected, ready, timed_out, bad_descriptor, failed, Task, Turn, absurdly_long, is_in,
  run_timer, run_timers, after_select, select_round, select_task,
}

module _ (handle : ℕ → Notice → Table → Table) (call : ℕ → ℕ → Table → Table)
    (keeps : (h : ℕ) (notice : Notice) (t : Table) → IsLimited t → IsLimited (handle h notice t))
    (call_keeps : (p data_pointer : ℕ) (t : Table)
      → IsLimited t
      → IsLimited (call p data_pointer t)) where
  run_timer-IsLimited :
      (now : ℕ) (task : TimerTask) (p : Option ℕ) (min_time : ℕ) (t : Table)
      → IsLimited t
      → ((run_timer handle call now task p min_time t).1 ≤ min_time)
        × IsLimited ((run_timer handle call now task p min_time t).2)
  unfolding run_timer
  run_timer-IsLimited now task none m t l = (omega arith, l)
  run_timer-IsLimited now task (some p) m t l = elim (Bool-cases (ltb now task.when)) [
    | inl e ↦ rw e (omega arith, call_keeps p task.data_pointer t l)
    | inr e ↦ rw e (omega arith, l)
  ]

  run_timers-IsLimited :
      (now : ℕ) (tasks : List TimerTask) (min_time : ℕ) (t : Table)
      → IsLimited t
      → ((run_timers handle call now tasks min_time t).1 ≤ min_time)
        × IsLimited ((run_timers handle call now tasks min_time t).2)
  unfolding run_timers
  run_timers-IsLimited now [] m t l = (omega arith, l)
  run_timers-IsLimited now (task ∷ tasks) m t l =
      let this = run_timer-IsLimited now task task.procedure m t l in
      let rest = run_timers-IsLimited now tasks _ _ (this.1) in
      (omega (arith, this.0, rest.0), rest.1)

  after_select-IsLimited :
      (monitored : List ℕ) (now : ℕ) (selected : Selected) (s : Task)
      → IsLimited s.table
      → (s' : Task) × (after_select handle call monitored now selected s ≡ some s')
        × IsLimited s'.table
  unfolding after_select
  after_select-IsLimited monitored now (ready sets) s l =
      let (t, e, k) = (loops-IsLimited handle (is_in monitored) now keeps sets s.table l).0 in
      (record s { table = t }, rw (e, after_select) refl, k)
  after_select-IsLimited monitored now timed_out s l =
      let (t, e, k) =
        (loops-IsLimited handle (is_in monitored) now keeps (λ i. s.table.entries i) s.table l).1 in
      (record s { table = t }, rw (e, after_select) refl, k)
  after_select-IsLimited monitored now bad_descriptor s l = (s, refl, l)
  after_select-IsLimited monitored now failed s l =
      (record s { failures = suc s.failures }, refl, l)

  -- What a round gives: it ends, keeps the limit, and is given no longer to sleep than to the timer of
  -- any open descriptor that is set.
  pub select_round-IsLimited :
      (turn : Turn) (s : Task)
      → IsLimited s.table
      → (s' : Task) × (slept : ℕ) × (select_round handle call turn s ≡ some (s', slept))
        × IsLimited s'.table
        × ((fd : ℕ)
            → is_set (s.table.entries fd) ≡ true
            → turn.is_open fd ≡ true
            → (s.table.entries fd).timeout ≢ 0
            → slept ≤ (s.table.entries fd).timeout - turn.now)
  unfolding select_round
  select_round-IsLimited turn s l =
      let es = s.table.entries in
      let scanned = scan turn.is_open es turn.now s.table.fd_limit 0 absurdly_long in
      let timers = run_timers-IsLimited turn.now s.timer_tasks (scanned.1) s.table l in
      let timed = run_timers handle call turn.now s.timer_tasks (scanned.1) s.table in
      let before : Task = record s { table = timed.2; timer_tasks = timed.0 } in
      let (s', e, k) =
        after_select-IsLimited (scanned.0) turn.now turn.selected before (timers.1) in
      (
        s',
        timed.1,
        rw (e, select_round) refl,
        k,
        λ fd set is_op timer.
            let sleep =
              scan-sleep turn.is_open es turn.now s.table.fd_limit 0 absurdly_long fd (omega arith)
                (omega (arith, l.0 fd set)) set is_op timer in
            omega (arith, sleep.0, timers.0),
      )

  -- The select task goes on for ever: every sequence of rounds ends, whatever select reports and
  -- whatever the handlers and the procedures of timer tasks register and unregister, and leaves
  -- fd_limit above all descriptors that are set and within the arrays, if it is so before and every
  -- handler and procedure keeps it so.
  pub select_task-IsLimited :
      (turns : List Turn) (s : Task)
      → IsLimited s.table
      → (s' : Task) × (select_task handle call turns s ≡ some s') × IsLimited s'.table
  unfolding select_task
  select_task-IsLimited [] s l = (s, refl, l)
  select_task-IsLimited (turn ∷ turns) s l =
      let (s', slept, e, k, sleep) = select_round-IsLimited turn s l in
      let (s'', f, m) = select_task-IsLimited turns s' k in (s'', rw (e, select_task) f, m)
