-- ===== src/Stun/Retries.antt =====
-- What a run of requests comes to: the one report that its caller gets.
use rigcontrol.Common.{
  ℕ, ◌+◌, ◌≤◌, ◌≡◌, ◌≢◌, ◌∙◌, ◌⊎◌, refl, sym, ap, inl, inr, arith, Bool, true, false, Option, none,
  some, List, [], ◌∷◌, ◌++◌, All, length, leb, if◌then◌else◌, Bool-cases, Option-cases,
}
use rigcontrol.Stun.{Address, Outcome, accepted, refused, out_of_fuel}
use rigcontrol.Stun.Run.{
  World, StunRun, Stage, Attempt, Event, call, stun_send, try_again, deliver, run_stun, gm_stun,
  run_gm_stun,
}
use rigcontrol.Stun.Run.Stage.{queued, ended}
use rigcontrol.Stun.Report.{
  reports, outcome, settle, verdict, Silent, silent_append, Sends, stun_send_lem, finish,
  stun_receive_lem, reports-after_calls,
}

-- A round ends the run with its one report, or goes on to a further one.
data Round (later : Address → Option (Bool × Address)) (w : World) (run : StunRun)
    (answered : Option (Bool × Address)) (reached : World × Stage) : Type 0 where
  ends :
      (success : Bool) (address : Address) (w' : World)
      → answered ≡ some (success, address)
      → reached ≡ (w', ended)
      → reports w'.calls ≡ reports w.calls ++ (success, run.ipv6, address) ∷ []
      → Round later w run answered reached
  goes_on :
      (before : Address) (w' : World)
      → answered ≡ later before
      → reached ≡ (w', queued (record run { address = before; tries = run.tries + 1 }))
      → Silent w w'
      → Round later w run answered reached

try_again-Round :
    (later : Address → Option (Bool × Address)) (w : World) (run : StunRun)
    → run.has_after ≡ true
    → Round later w run
        (if leb 5 run.tries then some (false, run.address) else later run.address)
        (try_again w run)
unfolding try_again reports call Silent
try_again-Round later w run h = elim (Bool-cases (leb 5 run.tries)) [
  | inl k ↦ rw k (ends false run.address _ refl refl (reports-after_calls w run false h))
  | inr k ↦ rw k (goes_on run.address _ refl refl (silent_append (w.calls) _ refl))
]

-- The address that a run starts a round with is not asked for again.
Round-address :
    (later : Address → Option (Bool × Address)) (w : World) (run : StunRun) (a : Address)
    (answered : Option (Bool × Address)) (reached : World × Stage)
    → Round later w (record run { address = a }) answered reached
    → Round later w run answered reached
Round-address later w run a answered reached (ends s b w' e r h) = ends s b w' e r h
Round-address later w run a answered reached (goes_on b w' e r h) = goes_on b w' e r h

finish-Round :
    (later : Address → Option (Bool × Address)) (w : World) (run : StunRun) (o : Outcome)
    → run.has_after ≡ true
    → Round later w run (settle later run.tries o run.address) (finish w run o)
unfolding finish
finish-Round later w run (accepted a) h =
    ends true a _ refl refl (reports-after_calls w (record run { address = a }) true h)
finish-Round later w run (refused a) h =
    Round-address later w run a _ _ (try_again-Round later w (record run { address = a }) h)
finish-Round later w run out_of_fuel h = try_again-Round later w run h

Round-Silent :
    (later : Address → Option (Bool × Address)) (v w : World) (run : StunRun)
    (answered : Option (Bool × Address)) (reached : World × Stage)
    → Silent v w
    → Round later w run answered reached
    → Round later v run answered reached
unfolding Silent
Round-Silent later v w run answered reached k (ends s b w' e r h) =
    ends s b w' e r (h ∙ ap (λ l. l ++ (s, run.ipv6, b) ∷ []) k)
Round-Silent later v w run answered reached k (goes_on b w' e r h) = goes_on b w' e r (h ∙ k)

deliver-Round :
    (later : Address → Option (Bool × Address)) (attempt : Attempt) (event : Event) (w : World)
    (run : StunRun)
    → run.has_after ≡ true
    → Sends (attempt, event)
    → Round later w run
        (settle later run.tries (outcome event run.address) run.address)
        (deliver event (stun_send attempt w run))
unfolding deliver Silent
deliver-Round later attempt event w run h send =
    let (fd, w1, silent1, e1) = stun_send_lem attempt event w run send in
    let (w2, silent2, e2) = stun_receive_lem fd event w1 run in
    rw (e1, e2)
      (Round-Silent later w w2 run _ _ (silent2 ∙ silent1)
        (finish-Round later w2 run (outcome event run.address) h))

run_stun-ended :
    (rounds : List (Attempt × Event)) (w : World) → run_stun w ended rounds ≡ (w, ended)
unfolding run_stun
run_stun-ended [] w = refl
run_stun-ended (r ∷ rest) w = refl

abbrev pub events_of : List (Attempt × Event) → List Event
events_of [] = []
events_of ((attempt, event) ∷ rest) = event ∷ events_of rest

abbrev as_report : Bool → Option (Bool × Address) → List (Bool × Bool × Address)
as_report ipv6 none = []
as_report ipv6 (some (success, address)) = (success, ipv6, address) ∷ []

-- The end of a run with its report.
abbrev pub Reported : World → World × Stage → Bool × Bool × Address → Type 0
unfolding reports
Reported w reached report =
    (w' : World) × (reached ≡ (w', ended)) × (reports w'.calls ≡ reports w.calls ++ report ∷ [])

module _ (rest : List (Attempt × Event)) (success : Bool) (address : Address) where
  after-Round :
      (w : World) (run : StunRun) (answered : Option (Bool × Address)) (reached : World × Stage)
      → ((w' : World) (a : Address)
          → verdict (run.tries + 1) a (events_of rest) ≡ some (success, address)
          → Reported w'
              (run_stun w' (queued (record run { address = a; tries = run.tries + 1 })) rest)
              (success, run.ipv6, address))
      → Round (λ a. verdict (run.tries + 1) a (events_of rest)) w run answered reached
      → answered ≡ some (success, address)
      → Reported w (run_stun (reached.0) (reached.1) rest) (success, run.ipv6, address)
  unfolding Reported reports Silent
  after-Round w run answered reached next (ends s b w' e r h) v =
      let same : Path (Option (Bool × Address)) (some (s, b)) (some (success, address)) =
        sym e ∙ v in
      (
        w',
        rw r (run_stun-ended rest w'),
        h ∙ ap (λ l. reports w.calls ++ l) (ap (as_report run.ipv6) same),
      )
  after-Round w run answered reached next (goes_on b w' e r h) v =
      let (w2, e2, h2) = next w' b (sym e ∙ v) in
      (w2, rw r e2, h2 ∙ ap (λ l. l ++ (success, run.ipv6, address) ∷ []) h)

run_stun-reports :
    (rounds : List (Attempt × Event)) (w : World) (run : StunRun) (success : Bool)
    (address : Address)
    → run.has_after ≡ true
    → All Sends rounds
    → verdict run.tries run.address (events_of rounds) ≡ some (success, address)
    → Reported w (run_stun w (queued run) rounds) (success, run.ipv6, address)
unfolding run_stun verdict reports Reported
run_stun-reports [] w run s address h sends v = cc
run_stun-reports ((attempt, event) ∷ rest) w run s address h (send, sends) v =
    after-Round rest s address w run _ _
      (λ w' a v'.
        run_stun-reports rest w' (record run { address = a; tries = run.tries + 1 }) s address h
          sends v')
      (deliver-Round _ attempt event w run h send) v

settle_some :
    (later : Address → Option (Bool × Address)) (tries : ℕ) (o : Outcome) (before : Address)
    → (leb 5 tries ≡ true) ⊎ ((a : Address) → later a ≢ none)
    → settle later tries o before ≢ none
settle_some later tries (accepted a) before _ e = cc
settle_some later tries (refused a) before (inl k) e = ground (arith, k, e)
settle_some later tries (refused a) before (inr k) e = ground (arith, k a, e)
settle_some later tries out_of_fuel before (inl k) e = ground (arith, k, e)
settle_some later tries out_of_fuel before (inr k) e = ground (arith, k before, e)

verdict_some :
    (rounds : List (Attempt × Event)) (tries : ℕ) (address : Address)
    → 6 ≤ tries + length rounds
    → tries ≤ 5
    → verdict tries address (events_of rounds) ≢ none
unfolding verdict
verdict_some [] tries address enough few = absurd (omega (arith, enough, few))
verdict_some ((attempt, event) ∷ rest) tries address enough few =
    settle_some _ tries (outcome event address) address (elim (Bool-cases (leb 5 tries)) [
      | inl k ↦ inl k
      | inr k ↦
          inr (λ a. verdict_some rest (tries + 1) a (omega (arith, enough)) (ground (arith, k)))
    ])

-- If all requests go out, and the run has the socket to itself and is not stopped, gm_stun reports to its caller exactly once, after six rounds at most: the
-- first address that a response gave, or the failure of the sixth, and then the run has ended.
pub gm_stun_once :
    (rounds : List (Attempt × Event)) (ipv6 : Bool) (address : Address) (w : World)
    → All Sends rounds
    → 6 ≤ length rounds
    → (success : Bool) × (given : Address) × (verdict 0 address (events_of rounds)
        ≡ some (success, given))
      × Reported w (run_gm_stun ipv6 address w rounds) (success, ipv6, given)
unfolding gm_stun run_gm_stun call reports Reported
gm_stun_once rounds ipv6 address w sends enough =
    elim (Option-cases (verdict 0 address (events_of rounds))) [
      | inl n ↦ absurd (verdict_some rounds 0 address (omega (arith, enough)) (omega arith) n)
      | inr ((s, a), v) ↦
          let (w', e, h) = run_stun-reports rounds _ _ s a refl sends v in
          (s, a, v, (w', e, h ∙ ap (λ l. l ++ (s, ipv6, a) ∷ []) (silent_append (w.calls) _ refl)))
    ]
