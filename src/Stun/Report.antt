-- ===== src/Stun/Report.antt =====
-- The reports of a run, and what its calls do to the world.
use rigcontrol.Common.{
  ℕ, ◌+◌, ◌≡◌, ◌≢◌, ◌∙◌, refl, ap, Bool, true, false, ◌||◌, Option, none, some, List, [], ◌∷◌, ◌++◌,
  append-nil, ltb, leb, if◌then◌else◌,
}
use rigcontrol.Stun.{Address, Outcome, accepted, refused, out_of_fuel, process_received_packet}
use rigcontrol.Stun.Run.{
  Call, World, StunRun, Stage, Attempt, Event, call, close_old, send_on, send_stun_request,
  drop_socket, receive_stun_response, await_response, stun_send, after_calls, try_again, drop_if,
  conclude_response, stun_receive,
}
use rigcontrol.Stun.Run.Call.{
  socket, close, gm_fd_unregister, gm_fd_register, gm_run_stun_send, free_run, after,
}
use rigcontrol.Stun.Run.Stage.{waiting, ended}

-- The reports among the calls.
unfoldable pub reports : List Call → List (Bool × Bool × Address)
reports [] = []
reports (after success ipv6 address ∷ cs) = (success, ipv6, address) ∷ reports cs
reports (_ ∷ cs) = reports cs

reports-append : (cs ds : List Call) → reports (cs ++ ds) ≡ reports cs ++ reports ds
unfolding reports
reports-append [] ds = refl
reports-append (after s i a ∷ cs) ds = ap (◌∷◌ (s, i, a)) (reports-append cs ds)
reports-append (socket _ ∷ cs) ds = reports-append cs ds
reports-append (close _ ∷ cs) ds = reports-append cs ds
reports-append (gm_fd_unregister _ ∷ cs) ds = reports-append cs ds
reports-append (gm_fd_register _ _ ∷ cs) ds = reports-append cs ds
reports-append (gm_run_stun_send ∷ cs) ds = reports-append cs ds
reports-append (free_run ∷ cs) ds = reports-append cs ds

-- What an event says of the address.
abbrev pub outcome : Event → Address → Outcome
unfolding process_received_packet
outcome event address =
    if event.readable
    then (if ltb event.reception.receive_result 22
        then refused address
        else process_received_packet event.reception.memory event.reception.attribute_size
            event.reception.receive_result address)
    else refused address

-- The first accepted address, or a failure after the sixth event.
abbrev pub settle :
    (Address → Option (Bool × Address)) → ℕ → Outcome → Address → Option (Bool × Address)
settle later tries (accepted address) before = some (true, address)
settle later tries (refused address) before =
    if leb 5 tries then some (false, address) else later address
settle later tries out_of_fuel before = if leb 5 tries then some (false, before) else later before

unfoldable pub verdict : ℕ → Address → List Event → Option (Bool × Address)
unfolding outcome
verdict tries address [] = none
verdict tries address (event ∷ events) =
    settle (λ a. verdict (tries + 1) a events) tries (outcome event address) address

-- Calls that report nothing.
unfoldable pub Silent : World → World → Type 0
unfolding reports
Silent w w' = reports w'.calls ≡ reports w.calls

pub silent_append : (calls cs : List Call) → reports cs ≡ [] → reports (calls ++ cs) ≡ reports calls
silent_append calls cs e =
    reports-append calls cs ∙ ap (λ l. reports calls ++ l) e ∙ append-nil (reports calls)

close_old-silent : (s : Option ℕ) (cs : List Call) → reports (close_old s ++ cs) ≡ reports cs
unfolding reports
close_old-silent none cs = refl
close_old-silent (some fd) cs = refl

drop_socket-Silent : (fd : ℕ) (w : World) → Silent w (drop_socket fd w)
unfolding drop_socket call reports Silent
drop_socket-Silent fd w = silent_append (w.calls) _ refl

drop_if-Silent : (b : Bool) (fd : ℕ) (w : World) → Silent w (drop_if b fd w)
unfolding drop_if drop_socket call reports Silent
drop_if-Silent true fd w = drop_socket-Silent fd w
drop_if-Silent false fd w = refl

-- A request that goes out.
abbrev pub Sends : Attempt × Event → Type 0
Sends (attempt, event) =
    (attempt.is_resolved ≡ true) × (attempt.all_sent ≡ true) × (attempt.sock ≢ none)

send_on_lem :
    (w : World) (s : Option ℕ) (all : Bool)
    → all ≡ true
    → s ≢ none
    → (fd : ℕ) × (w' : World) × Silent w w' × (send_on w s all ≡ (w', some fd))
unfolding reports Silent
send_on_lem w none all a s = absurd (s refl)
send_on_lem w (some fd) false a s = cc
send_on_lem w (some fd) true a s =
    (fd, _, silent_append (w.calls) _ (close_old-silent (w.stun_sock) _), refl)

pub stun_send_lem :
    (attempt : Attempt) (event : Event) (w : World) (run : StunRun)
    → Sends (attempt, event)
    → (fd : ℕ) × (w' : World) × Silent w w' × (stun_send attempt w run ≡ (w', waiting fd run))
unfolding stun_send send_stun_request await_response call reports Silent
stun_send_lem attempt event w run (r, a, s) =
    let (fd, w', silent, e) = send_on_lem w (attempt.sock) (attempt.all_sent) a s in
    (
      fd,
      call (gm_fd_register fd 5 ∷ []) w',
      silent_append (w'.calls) _ refl ∙ silent,
      rw r (ap (await_response run) e),
    )

unfoldable pub finish : World → StunRun → Outcome → World × Stage
unfolding call try_again
finish w run (accepted a) = (call (after_calls (record run { address = a }) true) w, ended)
finish w run (refused a) = try_again w (record run { address = a })
finish w run out_of_fuel = try_again w run

conclude_response_lem :
    (fd : ℕ) (failed : Bool) (w : World) (run : StunRun) (o : Outcome)
    → (w' : World) × Silent w w' × (conclude_response fd failed run (w, o) ≡ finish w' run o)
unfolding conclude_response finish Silent
conclude_response_lem fd failed w run (accepted a) =
    (drop_socket fd w, drop_socket-Silent fd w, refl)
conclude_response_lem fd failed w run (refused a) =
    (drop_if failed fd w, drop_if-Silent failed fd w, refl)
conclude_response_lem fd failed w run out_of_fuel =
    (drop_if failed fd w, drop_if-Silent failed fd w, refl)

pub stun_receive_lem :
    (fd : ℕ) (event : Event) (w : World) (run : StunRun)
    → (w' : World) × Silent w w'
      × (stun_receive fd event w run ≡ finish w' run (outcome event run.address))
unfolding stun_receive finish receive_stun_response Silent
stun_receive_lem fd event w run = by_readable (event.readable) _
  where
    failed : Bool
    failed = event.timeout || event.exception

    by_readable :
        (b : Bool) (o : Outcome)
        → (w' : World) × Silent w w'
          × ((if b
                then conclude_response fd failed run (drop_socket fd w, o)
                else try_again (drop_if failed fd w) run)
              ≡ finish w' run (if b then o else refused run.address))
    by_readable true o =
        let (w', silent, e) = conclude_response_lem fd failed (drop_socket fd w) run o in
        (w', silent ∙ drop_socket-Silent fd w, e)
    by_readable false o = (drop_if failed fd w, drop_if-Silent failed fd w, refl)

pub reports-after_calls :
    (w : World) (run : StunRun) (success : Bool)
    → run.has_after ≡ true
    → reports (call (after_calls run success) w).calls
      ≡ reports w.calls ++ (success, run.ipv6, run.address) ∷ []
unfolding call reports Silent
reports-after_calls w run success h = reports-append (w.calls) _ ∙ rw h refl
