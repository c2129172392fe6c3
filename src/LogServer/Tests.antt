-- ===== src/LogServer/Tests.antt =====
-- A client sends a line and hangs up.
use rigcontrol.Common.{◌≡◌, refl, true, false, none, some, List, [], ◌∷◌, ltb}
use rigcontrol.Select.{cleared}
use rigcontrol.LogServer.{Log, LogEvent}
use rigcontrol.LogServer.Session.{IsRestored, session, session-IsRestored}

abbrev quiet : Log
quiet = record {
  server = none;
  log_fd = 2;
  is_open = λ i. ltb i 60;
  table = record { fd_limit = 0; entries = λ i. cleared };
  failures = 0;
}

abbrev events : List LogEvent
events =
    record { readable = true; exception = false; received = some 12 }
    ∷ record { readable = true; exception = false; received = some 0 }
    ∷ []

session-IsRestored_example :
    ((session 7 8 0 60 61 events quiet).server ≡ none)
    × IsRestored quiet (session 7 8 0 60 61 events quiet)
session-IsRestored_example = session-IsRestored 7 8 0 60 61 events quiet refl refl refl refl refl
