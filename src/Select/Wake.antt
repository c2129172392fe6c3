-- ===== src/Select/Wake.antt =====
-- select_task.c and event_server.c: a change of the descriptors wakes the select task while it waits.
mod Tests
use rigcontrol.Common.{
  ℕ, ◌+◌, ◌≡◌, ◌∙◌, refl, sym, ap, arith, Bool, true, false, Option, none, some, List, [], ◌∷◌,
  ◌++◌, append-nil, append_assoc, All, replicate, Bytes, inl, inr, if◌then◌else◌, Bool-cases,
}
use rigcontrol.Select.{Entry, Table, gm_fd_register, gm_fd_unregister}
use rigcontrol.Select.Limit.{Change, register, unregister, change_all}
use rigcontrol.EventServer.{
  wakeup_bytes, Client, fast, gm_select_wakeup, Handled, handled, Server, event_handler,
}
use rigcontrol.EventServer.Stream.{
  Request, wakeup, sent, events, open_client, IsRequest, serve, serve-sent, run_jobs, jobs_at,
}

-- The table, `in_select`, and the client's end of the loopback connection.
pub record Watcher : Type 0 where
  pub table : Table
  pub in_select : Bool
  pub client : Client

abbrev pub wake : Watcher → Option Watcher
unfolding gm_select_wakeup
wake w = elim (gm_select_wakeup w.client) [ none ↦ none | some c ↦ some (record w { client = c }) ]

-- gm_fd_register and gm_fd_unregister to their ends; `none` is an abort.
unfoldable pub change : Change → Watcher → Option Watcher
unfolding gm_fd_register gm_fd_unregister wake
change (register fd wanted seconds now) w =
    let changed : Watcher = record w { table = gm_fd_register fd wanted seconds now w.table } in
    if w.in_select then wake changed else some changed
change (unregister fd) w =
    let changed : Watcher = record w { table = gm_fd_unregister fd w.table } in
    if w.in_select then wake changed else some changed

unfoldable pub change_each : List Change → Watcher → Option Watcher
unfolding change
change_each [] w = some w
change_each (c ∷ cs) w = elim (change c w) [ none ↦ none | some w' ↦ change_each cs w' ]

-- One wake-up for each change.
unfoldable pub wakeups : List Change → List Request
wakeups [] = []
wakeups (c ∷ cs) = wakeup ∷ wakeups cs

-- The watcher while it waits, with what was written to the loopback connection.
abbrev pub waiting : Table → Bytes → Watcher
waiting t written = record { table = t; in_select = true; client = open_client written [] [] }

change_each-waiting :
    (cs : List Change) (t : Table) (written : Bytes)
    → change_each cs (waiting t written)
      ≡ some (waiting (change_all cs t) (written ++ sent (wakeups cs)))
unfolding change_each change wake gm_select_wakeup sent wakeups change_all
change_each-waiting [] t written = ap (λ b. some (waiting t b)) (sym (append-nil written))
change_each-waiting (register fd wanted seconds now ∷ cs) t written =
    change_each-waiting cs _ (written ++ wakeup_bytes)
    ∙ ap (λ b. some (waiting (change_all (register fd wanted seconds now ∷ cs) t) b))
        (append_assoc written wakeup_bytes (sent (wakeups cs)))
change_each-waiting (unregister fd ∷ cs) t written =
    change_each-waiting cs _ (written ++ wakeup_bytes)
    ∙ ap (λ b. some (waiting (change_all (unregister fd ∷ cs) t) b))
        (append_assoc written wakeup_bytes (sent (wakeups cs)))

wakeups-IsRequest : (cs : List Change) → All IsRequest (wakeups cs)
unfolding wakeups
wakeups-IsRequest [] = tt
wakeups-IsRequest (c ∷ cs) = (tt, wakeups-IsRequest cs)

no_jobs : (cs : List Change) → jobs_at fast (wakeups cs) ≡ []
unfolding jobs_at wakeups
no_jobs [] = refl
no_jobs (c ∷ cs) = no_jobs cs

-- While select waits, every register and every unregister changes the table as it does otherwise and
-- writes one wake-up; the select task, called once for each, then reads them all, runs nothing, and
-- reports nothing wrong.
pub serve-change_each :
    {W : Type 0} (call : ℕ → ℕ → W → W) (cs : List Change) (t : Table) (world : W)
    → (w : Watcher) × (change_each cs (waiting t []) ≡ some w)
      × (w.table ≡ change_all cs t)
      × (serve call (events (wakeups cs)) (record { arrived = w.client.written; world = world })
          ≡ (record { arrived = []; world = world }, replicate (events (wakeups cs)) handled))
serve-change_each call cs t world = (
  waiting (change_all cs t) (sent (wakeups cs)),
  change_each-waiting cs t [],
  refl,
  serve-sent call (wakeups cs) world (wakeups-IsRequest cs)
      ∙ ap
          (λ js. (
            (record { arrived = []; world = run_jobs call js world }),
            replicate (events (wakeups cs)) handled,
          ))
          (no_jobs cs),
)
