-- ===== src/LogServer/Session.antt =====
-- A session of the log server, from its start to its stop.
use rigcontrol.Common.{
  ℕ, ◌≡◌, ◌∙◌, refl, sym, ap, inl, inr, Bool, true, false, ◌&&◌, ◌||◌, none, some, List, [], ◌∷◌,
  ◌==◌, ==_iff, if◌then◌else◌, Bool-cases,
}
use mathlib.Core.Path.{subst}
use rigcontrol.Select.{cleared, gm_fd_unregister}
use rigcontrol.Select.Descriptors.{mark}
use rigcontrol.LogServer.{
  Log, console_fd, logging_connection_closed, LogEvent, is_end, socket_event_handler,
  accept_handler, gm_log_server_start, stop_server, gm_log_server_stop,
}

unfoldable pub run_events : List LogEvent → Log → Log
unfolding socket_event_handler
run_events [] l = l
run_events (e ∷ es) l = run_events es (socket_event_handler e l)

-- The connection ends by an exception, or by reading nothing.
abbrev pub ends : List LogEvent → Bool
ends [] = false
ends (e ∷ es) = (e.exception || (e.readable && is_end e.received)) || ends es

-- The descriptor is as it was in `base`.
abbrev pub Same : Log → Log → ℕ → Type 0
Same base l i = (l.is_open i ≡ base.is_open i) × (l.table.entries i ≡ base.table.entries i)

-- Logging goes to the console, and all descriptors are as they were.
abbrev pub IsRestored : Log → Log → Type 0
IsRestored base l = (l.log_fd ≡ console_fd) × ((i : ℕ) → Same base l i)

socket_event_handler_cases :
    (e : LogEvent) (l : Log)
    → socket_event_handler e l ≡ (
        if e.exception || (e.readable && is_end e.received) then logging_connection_closed l else l)
unfolding socket_event_handler
socket_event_handler_cases e l = by_tests e.exception (e.readable && is_end e.received)
  where
    by_tests :
        (x r : Bool)
        → (if x then logging_connection_closed l else if r then logging_connection_closed l else l)
          ≡ (if x || r then logging_connection_closed l else l)
    by_tests true r = refl
    by_tests false true = refl
    by_tests false false = refl

closed-console_fd : (l : Log) → (l.log_fd == console_fd) ≡ true → logging_connection_closed l ≡ l
unfolding logging_connection_closed
closed-console_fd l e = rw (e, logging_connection_closed) refl

-- The connection closed.
abbrev hung_up : Log → Log
unfolding gm_fd_unregister
hung_up l = record l {
  table = gm_fd_unregister l.log_fd l.table;
  is_open = mark l.log_fd false l.is_open;
  log_fd = console_fd;
}

closed-connection :
    (l : Log) → (l.log_fd == console_fd) ≡ false → logging_connection_closed l ≡ hung_up l
unfolding logging_connection_closed hung_up
closed-connection l e = rw (e, logging_connection_closed) refl

-- On the console nothing is closed any more.
run_events-console_fd :
    (es : List LogEvent) (l : Log) → (l.log_fd == console_fd) ≡ true → run_events es l ≡ l
unfolding run_events
run_events-console_fd [] l h = refl
run_events-console_fd (e ∷ es) l h =
    ap (run_events es)
      (socket_event_handler_cases e l ∙ closed (e.exception || (e.readable && is_end e.received)))
    ∙ run_events-console_fd es l h
  where
    closed : (b : Bool) → (if b then logging_connection_closed l else l) ≡ l
    closed true = closed-console_fd l h
    closed false = refl

-- Behind the events of a connection it is closed, or as it was.
run_events-connection :
    (es : List LogEvent) (l : Log)
    → (l.log_fd == console_fd) ≡ false
    → run_events es l ≡ (if ends es then hung_up l else l)
unfolding run_events hung_up
run_events-connection [] l h = refl
run_events-connection (e ∷ es) l h =
    ap (run_events es) (socket_event_handler_cases e l)
    ∙ by_test (e.exception || (e.readable && is_end e.received)) (run_events-connection es l h)
  where
    by_test :
        (b : Bool)
        → run_events es l ≡ (if ends es then hung_up l else l)
        → run_events es (if b then logging_connection_closed l else l)
          ≡ (if b || ends es then hung_up l else l)
    by_test true later =
        ap (run_events es) (closed-connection l h) ∙ run_events-console_fd es (hung_up l) refl
    by_test false later = later

-- What stopping makes of it is the same in both cases.
closed-run_events :
    (es : List LogEvent) (l : Log)
    → (l.log_fd == console_fd) ≡ false
    → logging_connection_closed (run_events es l) ≡ hung_up l
unfolding hung_up
closed-run_events es l h =
    ap logging_connection_closed (run_events-connection es l h) ∙ by_end (ends es)
  where
    by_end : (b : Bool) → logging_connection_closed (if b then hung_up l else l) ≡ hung_up l
    by_end true = closed-console_fd (hung_up l) refl
    by_end false = closed-connection l h

module _ (handler connection_handler now : ℕ) where
  -- A session: the server is started, a connection accepted, something happens on it, and the server is
  -- stopped.
  abbrev pub session : ℕ → ℕ → List LogEvent → Log → Log
  unfolding gm_log_server_start accept_handler run_events gm_log_server_stop
  session server connection es l = gm_log_server_stop (
      run_events es (
        accept_handler connection_handler now true false (some connection)
          (gm_log_server_start handler now (some server) true true l)))

  -- After a session, whatever happened on its connection, logging goes to the console again, no server is
  -- kept, and exactly the descriptors are open and registered that were so before; the two sockets are
  -- new descriptors, which were not registered, and descriptor 2 was open.
  pub session-IsRestored :
      (server connection : ℕ) (es : List LogEvent) (l : Log)
      → l.is_open console_fd ≡ true
      → l.is_open server ≡ false
      → l.is_open connection ≡ false
      → l.table.entries server ≡ cleared
      → l.table.entries connection ≡ cleared
      → ((session server connection es l).server ≡ none)
        × IsRestored l (session server connection es l)
  unfolding session gm_log_server_start accept_handler gm_log_server_stop
  session-IsRestored server connection es l two s c se ce =
      let other : (connection == console_fd) ≡ false = differs (connection == console_fd) refl in
      let final = stopped (closed-run_events es connected other) in
      subst (λ d. (d.server ≡ none) × IsRestored l d) (sym final) (refl, (refl, same))
    where
      connected : Log
      connected =
          accept_handler connection_handler now true false (some connection)
            (gm_log_server_start handler now (some server) true true l)

      differs : (b : Bool) → (connection == console_fd) ≡ b → b ≡ false
      differs false e = refl
      differs true e = sym (sym c ∙ ap l.is_open ((==_iff connection console_fd).0 e) ∙ two)

      stopped :
          {d : Log}
          → logging_connection_closed (run_events es connected) ≡ d
          → session server connection es l ≡ stop_server d.server d
      stopped e = ap (λ d. stop_server d.server d) e

      same : (i : ℕ) → Same l (stop_server (some server) (hung_up connected)) i
      same i = elim (Bool-cases (i == server)) [
        | inl e ↦
            let there : i ≡ server = (==_iff i server).0 e in
            (rw e (sym (ap l.is_open there ∙ s)), rw e (sym (ap l.table.entries there ∙ se)))
        | inr e ↦ elim (Bool-cases (i == connection)) [
          | inl k ↦
              let there : i ≡ connection = (==_iff i connection).0 k in
              (
                rw (e, k) (sym (ap l.is_open there ∙ c)),
                rw (e, k) (sym (ap l.table.entries there ∙ ce)),
              )
          | inr k ↦ (rw (e, k) refl, rw (e, k) refl)
        ]
      ]
