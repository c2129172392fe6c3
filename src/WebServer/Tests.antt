-- ===== src/WebServer/Tests.antt =====
-- The server is started twice, stopped and started again, with the matching that is documented.
use rigcontrol.Common.{
  ◌≡◌, ◌⊎◌, refl, Bool, true, false, none, some, List, [], ◌∷◌, ◌==◌, if◌then◌else◌, Bytes, codes,
  str_eq,
}
use rigcontrol.WebServer.{HttpdUri, Site, immed}
use rigcontrol.WebServer.Route.{
  Routes, ServerCall, started, stopped, synchronized, run_calls, run_calls-Routes,
}

abbrev down : Site
down = record {
  server = none;
  time_last_synchronized = 0;
  sntp_runs = false;
  sync_mode = immed;
  restarts = 0;
}

abbrev calls : List ServerCall
calls = started true ∷ synchronized 5 ∷ started true ∷ stopped ∷ started true ∷ []

abbrev begins : Bytes → Bool
begins [] = false
begins (c ∷ path) = c == b'/'

-- The template /* matches what begins with a slash, any other one itself.
abbrev matches : Bytes → Bytes → Bool
unfolding str_eq
matches template uri = if str_eq template (codes "/*") then begins uri else str_eq template uri

run_calls-Routes_example :
    ((run_calls calls down).server ≡ none)
    ⊎ ((server : List HttpdUri) × ((run_calls calls down).server ≡ some server)
        × Routes matches server)
unfolding matches str_eq
run_calls-Routes_example = run_calls-Routes matches (λ uri. refl) (λ path. refl) calls down refl
