-- ===== src/EventServer/Start.antt =====
-- event_server.c: the two ends of the loopback connection are set up; event_loop.c: the two loops run
-- the jobs that are posted to them.

use rigcontrol.Common.{ℕ, suc, Bool, true, false, Option, none, some, List, [], ◌∷◌, if◌then◌else◌}
use rigcontrol.Select.{Table, gm_fd_register}
use rigcontrol.Select.Descriptors.{mark, opened, watching}
use rigcontrol.EventServer.{Job}

-- `client`, where `none` is -1, the descriptors that are open, the select task's table, and how often
-- `GM_FAIL` was called.
pub record Startup : Type 0 where
  pub client : Option ℕ
  pub is_open : ℕ → Bool
  pub table : Table
  pub failures : ℕ

abbrev pub fail_startup : Startup → Startup
fail_startup s = record s { failures = suc s.failures }

-- What the calls of the platform give.
pub record Platform : Type 0 where
  pub server : Option ℕ
  pub client : Option ℕ
  pub binds : Bool
  pub listens : Bool
  pub connects : Bool

-- `accept_address` and `event_address` are the addresses of the two handlers, `now` the time.
module _ (accept_address event_address now : ℕ) where
  abbrev pub register_server : ℕ → Platform → Startup → Startup
  unfolding gm_fd_register
  register_server server p s =
      let registered : Startup = record s {
        table = gm_fd_register server (watching accept_address 0) 0 now s.table;
      } in
      if p.connects then registered else fail_startup registered

  abbrev pub listen_on : Option ℕ → Platform → Startup → Startup
  unfolding register_server
  listen_on none p s = fail_startup s
  listen_on (some server) p s =
      if p.binds
      then (if p.listens
          then register_server server p s
          else fail_startup (record s { is_open = mark server false s.is_open }))
      else fail_startup s

  -- Both sockets are opened before either is looked at.
  unfoldable pub gm_event_server : Platform → Startup → Startup
  unfolding listen_on
  gm_event_server p s =
      listen_on p.server p
        (record s { client = p.client; is_open = opened p.client (opened p.server s.is_open) })

  -- `connection` is what `accept` gives.
  unfoldable pub accept_handler : Bool → Bool → Option ℕ → Startup → Startup
  unfolding gm_fd_register
  accept_handler true exception none s = fail_startup s
  accept_handler true exception (some connection) s =
      let accepted : Startup = record s {
        is_open = mark connection true s.is_open;
        table = gm_fd_register connection (watching event_address 0) 0 now s.table;
      } in
      if exception then fail_startup accepted else accepted
  accept_handler false exception connection s = if exception then fail_startup s else s

-- A job of an event loop.
module _ {W : Type 0} (call : ℕ → ℕ → W → W) where
  abbrev pub handle_run_event : Job → W → W
  handle_run_event run w = call run.procedure run.data_address w

  -- An event loop calls its handler for one event after the other.
  unfoldable pub run_posts : List Job → W → W
  run_posts [] w = w
  run_posts (run ∷ runs) w = run_posts runs (handle_run_event run w)
