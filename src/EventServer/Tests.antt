-- ===== src/EventServer/Tests.antt =====
-- Jobs that add their data to a number, at two speeds.
use rigcontrol.Common.{ℕ, ◌+◌, ◌*◌, ◌≡◌, refl, arith, some, List, [], ◌∷◌, take, replicate}
use rigcontrol.EventServer.{
  Client, wakeup_bytes, slow, fast, medium, Job, handled, header_missing, event_handler,
}
use rigcontrol.EventServer.Stream.{
  Request, wakeup, run, send_all, open_client, events, jobs_at, run_jobs, serve, serve-send_all,
}

abbrev add : ℕ → ℕ → ℕ → ℕ
add procedure data_address w = w * 10 + data_address

abbrev job : ℕ → Job
job n = record { procedure = 4096; data_address = n }

abbrev requests : List Request
requests = run (job 1) fast ∷ wakeup ∷ run (job 2) slow ∷ run (job 3) fast ∷ []

-- An event of which half has arrived is lost.
half_lost :
    (event_handler add (record { arrived = take 4 wakeup_bytes; world = 0 })).1 ≡ header_missing
unfolding event_handler
half_lost = refl

serve-send_all_example :
    (c : Client) × (send_all requests (open_client [] [] []) ≡ some c)
    × (c.medium_posts ≡ jobs_at medium requests)
    × (c.slow_posts ≡ jobs_at slow requests)
    × (serve add (events requests) (record { arrived = c.written; world = 0 }) ≡ (
      record { arrived = []; world = run_jobs add (jobs_at fast requests) 0 },
      replicate (events requests) handled,
    ))
serve-send_all_example = serve-send_all add requests 0 (omega arith)
