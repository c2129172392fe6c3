-- ===== src/Stun/Run.antt =====
-- components/generic_main/stun.c: send_stun_request, receive_stun_response, stun_send, stun_receive,
-- gm_stun and gm_stun_stop. Sockets and the name service are the given results of their calls.
use rigcontrol.Common.{
  ℕ, ◌+◌, Bool, true, false, ◌||◌, Option, none, some, List, [], ◌∷◌, ◌++◌, ltb, leb, if◌then◌else◌,
}
use rigcontrol.Stun.{
  Memory, Address, Outcome, accepted, refused, out_of_fuel, process_received_packet,
}

-- The calls that reach other parts, in order.
pub data Call : Type 0 where
  socket close gm_fd_unregister : ℕ → Call
  gm_fd_register : ℕ → ℕ → Call
  gm_run_stun_send free_run : Call
  after : Bool → Bool → Address → Call

-- `stun_sock`, and the calls that were made.
pub record World : Type 0 where
  pub stun_sock : Option ℕ
  pub calls : List Call

-- `struct stun_run`, with whether `after` is set.
pub record StunRun : Type 0 where
  pub address : Address
  pub tries : ℕ
  pub ipv6 : Bool
  pub has_after : Bool

-- Where a run stands: in the queue, waiting for its socket, freed, or lost.
pub data Stage : Type 0 where
  queued : StunRun → Stage
  waiting : ℕ → StunRun → Stage
  ended lost : Stage

-- What the system answers to a request: whether the name is resolved, the socket, and whether all
-- of the packet was sent.
pub record Attempt : Type 0 where
  pub is_resolved : Bool
  pub sock : Option ℕ
  pub all_sent : Bool

-- What `recvfrom` gives: the bytes from the first attribute on, the length field, and its result,
-- with every negative result as 0.
pub record Reception : Type 0 where
  pub memory : Memory
  pub attribute_size : ℕ
  pub receive_result : ℕ

-- What `select_task` tells of a socket.
pub record Event : Type 0 where
  pub readable : Bool
  pub exception : Bool
  pub timeout : Bool
  pub reception : Reception

unfoldable pub call : List Call → World → World
call cs w = record w { calls = w.calls ++ cs }

-- `close(stun_sock)`, where it is open.
abbrev pub close_old : Option ℕ → List Call
close_old none = []
close_old (some fd) = close fd ∷ []

-- `send_stun_request`: the socket, if the packet went out.
abbrev pub send_on : World → Option ℕ → Bool → World × Option ℕ
send_on w none all_sent =
    (record w { stun_sock = none; calls = w.calls ++ close_old w.stun_sock }, none)
send_on w (some fd) true = (
  record w { stun_sock = some fd; calls = w.calls ++ (close_old w.stun_sock ++ socket fd ∷ []) },
  some fd,
)
send_on w (some fd) false = (
  record w {
    stun_sock = none;
    calls = w.calls ++ (close_old w.stun_sock ++ socket fd ∷ close fd ∷ []);
  },
  none,
)

unfoldable pub send_stun_request : Attempt → World → World × Option ℕ
send_stun_request attempt w =
    if attempt.is_resolved then send_on w attempt.sock attempt.all_sent else (w, none)

-- `gm_fd_unregister(sock); close(sock); stun_sock = -1;`
unfoldable pub drop_socket : ℕ → World → World
unfolding call
drop_socket fd w = call (gm_fd_unregister fd ∷ close fd ∷ []) (record w { stun_sock = none })

-- The socket is dropped in any case; a packet of fewer than 22 bytes is not read.
unfoldable pub receive_stun_response : ℕ → Address → Reception → World → World × Outcome
unfolding drop_socket process_received_packet
receive_stun_response fd address r w = (
  drop_socket fd w,
  (if ltb r.receive_result 22
      then refused address
      else process_received_packet r.memory r.attribute_size r.receive_result address),
)

unfoldable pub await_response : StunRun → World × Option ℕ → World × Stage
unfolding call
await_response run (w, none) = (w, lost)
await_response run (w, some fd) = (call (gm_fd_register fd 5 ∷ []) w, waiting fd run)

-- `stun_send`: a request that fails leaves the run where it is.
unfoldable pub stun_send : Attempt → World → StunRun → World × Stage
unfolding send_stun_request await_response
stun_send attempt w run = await_response run (send_stun_request attempt w)

abbrev pub after_calls : StunRun → Bool → List Call
after_calls run success =
    if run.has_after then after success run.ipv6 run.address ∷ free_run ∷ [] else free_run ∷ []

-- What `stun_receive` does unless a response was accepted.
unfoldable pub try_again : World → StunRun → World × Stage
unfolding call
try_again w run =
    if leb 5 run.tries
    then (call (after_calls run false) w, ended)
    else (call (gm_run_stun_send ∷ []) w, queued (record run { tries = run.tries + 1 }))

unfoldable pub drop_if : Bool → ℕ → World → World
unfolding drop_socket
drop_if b fd w = if b then drop_socket fd w else w

-- The rest of `stun_receive` behind the response: an accepted one drops the socket once more.
unfoldable pub conclude_response : ℕ → Bool → StunRun → World × Outcome → World × Stage
unfolding try_again drop_socket drop_if call
conclude_response fd failed run (w, accepted address) =
    (call (after_calls (record run { address = address }) true) (drop_socket fd w), ended)
conclude_response fd failed run (w, refused address) =
    try_again (drop_if failed fd w) (record run { address = address })
conclude_response fd failed run (w, out_of_fuel) = try_again (drop_if failed fd w) run

unfoldable pub stun_receive : ℕ → Event → World → StunRun → World × Stage
unfolding receive_stun_response conclude_response try_again drop_if
stun_receive fd event w run =
    if event.readable
    then conclude_response fd (event.timeout || event.exception) run
        (receive_stun_response fd run.address event.reception w)
    else try_again (drop_if (event.timeout || event.exception) fd w) run

-- `gm_stun`, given whether `malloc` gives memory.
unfoldable pub gm_stun : Bool → Bool → Address → Bool → World → World × Option Stage
unfolding call
gm_stun memory_given ipv6 address has_after w =
    if memory_given
    then (
      call (gm_run_stun_send ∷ []) w,
      some (queued (record { address = address; tries = 0; ipv6 = ipv6; has_after = has_after })),
    )
    else (w, none)

unfoldable pub stop_socket : Option ℕ → World → World
unfolding drop_socket
stop_socket none w = w
stop_socket (some fd) w = drop_socket fd w

unfoldable pub gm_stun_stop : World → World
unfolding stop_socket
gm_stun_stop w = stop_socket w.stun_sock w

-- `select_task` calls `stun_receive` for the run that waits.
unfoldable pub deliver : Event → World × Stage → World × Stage
unfolding stun_receive
deliver event (w, waiting fd run) = stun_receive fd event w run
deliver event (w, s) = (w, s)

-- A run with the attempts and events that come to it: each pair is a request and what then comes.
unfoldable pub run_stun : World → Stage → List (Attempt × Event) → World × Stage
unfolding stun_send deliver
run_stun w s [] = (w, s)
run_stun w (queued run) ((attempt, event) ∷ rest) =
    let reached = deliver event (stun_send attempt w run) in run_stun (reached.0) (reached.1) rest
run_stun w s (pair ∷ rest) = (w, s)

-- A call of `gm_stun` that gets its memory, with the rounds that follow.
abbrev pub start_stage : World × Option Stage → World × Stage
start_stage (w, none) = (w, ended)
start_stage (w, some s) = (w, s)

unfoldable pub run_gm_stun : Bool → Address → World → List (Attempt × Event) → World × Stage
unfolding run_stun gm_stun
run_gm_stun ipv6 address w rounds =
    let s = start_stage (gm_stun true ipv6 address true w) in run_stun (s.0) (s.1) rounds
