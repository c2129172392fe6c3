-- ===== src/Select/Round/Due.antt =====
-- When a timer task is run.
use rigcontrol.Common.{
  ℕ, ◌≤◌, ◌≡◌, ◌∙◌, ap₂, refl, arith, false, Option, none, some, List, [], ◌∷◌, ltb, All,
}
use rigcontrol.Select.{Table, Notice}
use rigcontrol.Select.Round.{TimerTask, run_timer, run_timers}

module _ (handle : ℕ → Notice → Table → Table) (call : ℕ → ℕ → Table → Table) where
  run_timer_due :
      (now : ℕ) (task : TimerTask) (p : Option ℕ) (min_time : ℕ) (t : Table)
      → task.when ≤ now
      → ((run_timer handle call now task p min_time t).0 ≡ task)
        × ((run_timer handle call now task p min_time t).2 ≡ t)
  unfolding run_timer
  run_timer_due now task none m t due = (refl, refl)
  run_timer_due now task (some p) m t due =
      let e : ltb now task.when ≡ false = ground arith in rw e (refl, refl)

  -- Timer tasks whose times have come are never run: the loop leaves them and the table as they are.
  pub run_timers_due :
      (now : ℕ) (tasks : List TimerTask) (min_time : ℕ) (t : Table)
      → All (λ task. task.when ≤ now) tasks
      → ((run_timers handle call now tasks min_time t).0 ≡ tasks)
        × ((run_timers handle call now tasks min_time t).2 ≡ t)
  unfolding run_timers
  run_timers_due now [] m t due = (refl, refl)
  run_timers_due now (task ∷ tasks) m t (due, later) =
      let this = run_timer_due now task task.procedure m t due in
      let rest = run_timers_due now tasks _ _ later in (ap₂ ◌∷◌ (this.0) (rest.0), rest.1 ∙ this.1)
