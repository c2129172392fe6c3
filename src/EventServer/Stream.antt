-- ===== src/EventServer/Stream.antt =====
-- What one end writes, the other end runs.
use rigcontrol.Common.{
  ℕ, zero, suc, ◌^◌, ◌<◌, ◌≡◌, ◌∙◌, refl, ap, ap₂, true, Option, none, some, List, [], ◌∷◌, ◌++◌,
  append_assoc, append-nil, All, Bytes, replicate, le32, word_of, word_of-le32,
}
use rigcontrol.EventServer.{
  Speed, slow, medium, fast, Job, wakeup_bytes, run_bytes, Client, gm_select_wakeup, gm_run,
  Handled, handled, Server, run_event, read_data, event_handler,
}

-- What the program asks for.
pub data Request : Type 0 where
  wakeup : Request
  run : Job → Speed → Request

-- No post to an event loop fails.
abbrev pub send : Request → Client → Option Client
unfolding gm_select_wakeup gm_run
send wakeup c = gm_select_wakeup c
send (run job speed) c = gm_run job speed true c

-- One request after the other.
unfoldable pub send_all : List Request → Client → Option Client
unfolding send
send_all [] c = some c
send_all (r ∷ rs) c = elim (send r c) [ none ↦ none | some c' ↦ send_all rs c' ]

-- The bytes that requests write: none for the slower jobs. `events` is their number.
unfoldable pub sent : List Request → Bytes
sent [] = []
sent (wakeup ∷ rs) = wakeup_bytes ++ sent rs
sent (run job fast ∷ rs) = run_bytes job ++ sent rs
sent (run job _ ∷ rs) = sent rs

unfoldable pub events : List Request → ℕ
events [] = 0
events (wakeup ∷ rs) = suc (events rs)
events (run job fast ∷ rs) = suc (events rs)
events (run job _ ∷ rs) = events rs

-- The jobs of a speed, in order.
unfoldable pub jobs_at : Speed → List Request → List Job
jobs_at speed [] = []
jobs_at speed (wakeup ∷ rs) = jobs_at speed rs
jobs_at medium (run job medium ∷ rs) = job ∷ jobs_at medium rs
jobs_at slow (run job slow ∷ rs) = job ∷ jobs_at slow rs
jobs_at fast (run job fast ∷ rs) = job ∷ jobs_at fast rs
jobs_at speed (run job _ ∷ rs) = jobs_at speed rs

-- Addresses have 32 bits.
abbrev pub IsRequest : Request → Type 0
IsRequest wakeup = Unit
IsRequest (run job speed) = (job.procedure < 2 ^ 32) × (job.data_address < 2 ^ 32)

-- A client that is connected.
abbrev pub open_client : Bytes → List Job → List Job → Client
open_client written medium_posts slow_posts = record {
  connected = true;
  written = written;
  medium_posts = medium_posts;
  slow_posts = slow_posts;
}

send_all-sent :
    (rs : List Request) (written : Bytes) (m s : List Job)
    → send_all rs (open_client written m s)
      ≡ some (open_client (written ++ sent rs) (m ++ jobs_at medium rs) (s ++ jobs_at slow rs))
unfolding send_all send gm_select_wakeup gm_run sent jobs_at
send_all-sent [] written m s = rw (append-nil written, append-nil m, append-nil s) refl
send_all-sent (wakeup ∷ rs) written m s =
    send_all-sent rs (written ++ wakeup_bytes) m s
    ∙ ap (λ b. some (open_client b (m ++ jobs_at medium rs) (s ++ jobs_at slow rs)))
        (append_assoc written wakeup_bytes (sent rs))
send_all-sent (run job fast ∷ rs) written m s =
    send_all-sent rs (written ++ run_bytes job) m s
    ∙ ap (λ b. some (open_client b (m ++ jobs_at medium rs) (s ++ jobs_at slow rs)))
        (append_assoc written (run_bytes job) (sent rs))
send_all-sent (run job medium ∷ rs) written m s =
    send_all-sent rs written (m ++ job ∷ []) s
    ∙ ap (λ b. some (open_client (written ++ sent rs) b (s ++ jobs_at slow rs)))
        (append_assoc m (job ∷ []) (jobs_at medium rs))
send_all-sent (run job slow ∷ rs) written m s =
    send_all-sent rs written m (s ++ job ∷ [])
    ∙ ap (λ b. some (open_client (written ++ sent rs) (m ++ jobs_at medium rs) b))
        (append_assoc s (job ∷ []) (jobs_at slow rs))

module _ {W : Type 0} (call : ℕ → ℕ → W → W) where
  abbrev pub run_jobs : List Job → W → W
  run_jobs [] w = w
  run_jobs (job ∷ jobs) w = run_jobs jobs (call job.procedure job.data_address w)

  -- The handler is called a number of times; the reports are in order.
  unfoldable pub serve : ℕ → Server W → Server W × List Handled
  unfolding event_handler
  serve zero s = (s, [])
  serve (suc n) s =
      let (s', report) = event_handler call s in
      let (s'', reports) = serve n s' in (s'', report ∷ reports)

  event_handler-wakeup :
      (rest : Bytes) (w : W)
      → event_handler call (record { arrived = wakeup_bytes ++ rest; world = w })
        ≡ (record { arrived = rest; world = w }, handled)
  unfolding event_handler read_data run_event word_of
  event_handler-wakeup rest w = refl

  event_handler-run :
      (job : Job) (rest : Bytes) (w : W)
      → IsRequest (run job fast)
      → event_handler call (record { arrived = run_bytes job ++ rest; world = w })
        ≡ (record { arrived = rest; world = call job.procedure job.data_address w }, handled)
  unfolding event_handler read_data run_event word_of
  event_handler-run job rest w (p, d) =
      ap₂ (λ procedure at. (record { arrived = rest; world = call procedure at w }, handled))
        (word_of-le32 job.procedure (le32 job.data_address) p) (word_of-le32 job.data_address [] d)

  serve-event_handler :
      (n : ℕ) (s s' : Server W) (report : Handled)
      → event_handler call s ≡ (s', report)
      → serve (suc n) s ≡ ((serve n s').0, report ∷ (serve n s').1)
  unfolding serve
  serve-event_handler n s s' report e =
      ap (λ (r : Server W × Handled). ((serve n r.0).0, r.1 ∷ (serve n r.0).1)) e

  pub serve-sent :
      (rs : List Request) (w : W)
      → All IsRequest rs
      → serve (events rs) (record { arrived = sent rs; world = w }) ≡ (
        record { arrived = []; world = run_jobs (jobs_at fast rs) w },
        replicate (events rs) handled,
      )
  unfolding serve events sent jobs_at
  serve-sent [] w h = refl
  serve-sent (wakeup ∷ rs) w (r, h) =
      serve-event_handler (events rs) (record { arrived = wakeup_bytes ++ sent rs; world = w })
        (record { arrived = sent rs; world = w }) handled (event_handler-wakeup (sent rs) w)
      ∙ ap (λ (r : Server W × List Handled). (r.0, handled ∷ r.1)) (serve-sent rs w h)
  serve-sent (run job fast ∷ rs) w (r, h) =
      serve-event_handler (events rs) (record { arrived = run_bytes job ++ sent rs; world = w })
        (record { arrived = sent rs; world = call job.procedure job.data_address w }) handled
        (event_handler-run job (sent rs) w r)
      ∙ ap (λ (r : Server W × List Handled). (r.0, handled ∷ r.1))
          (serve-sent rs (call job.procedure job.data_address w) h)
  serve-sent (run job medium ∷ rs) w (r, h) = serve-sent rs w h
  serve-sent (run job slow ∷ rs) w (r, h) = serve-sent rs w h

  -- Any sequence of wake-ups and jobs is sent by a connected client, and the select task, called once
  -- for each event of what was written, then runs the fast jobs, all of them and in order, reports
  -- nothing wrong and leaves nothing unread; esp_event_post_to is called with the medium and the slow
  -- jobs, in order, and no call of it fails.
  pub serve-send_all :
      (rs : List Request) (w : W)
      → All IsRequest rs
      → (c : Client) × (send_all rs (open_client [] [] []) ≡ some c)
        × (c.medium_posts ≡ jobs_at medium rs)
        × (c.slow_posts ≡ jobs_at slow rs)
        × (serve (events rs) (record { arrived = c.written; world = w }) ≡ (
          record { arrived = []; world = run_jobs (jobs_at fast rs) w },
          replicate (events rs) handled,
        ))
  serve-send_all rs w h = (
    open_client (sent rs) (jobs_at medium rs) (jobs_at slow rs),
    send_all-sent rs [] [] [],
    refl,
    refl,
    serve-sent rs w h,
  )
