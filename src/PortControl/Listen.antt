-- ===== src/PortControl/Listen.antt =====
-- port_control_protocol.c: the four sockets that listen for the router's packets, and what is done
-- with a packet that has arrived on one.
pub mod Sound
pub mod Started
pub mod Lifecycle
pub mod Leak
mod Tests
use rigcontrol.Common.{
  ℕ, zero, Bool, true, false, not, Option, none, some, List, [], ◌∷◌, ◌++◌, Bytes, ◌==◌,
  if◌then◌else◌,
}
use rigcontrol.Select.{Table, gm_fd_register, gm_fd_unregister}
use rigcontrol.Select.Descriptors.{mark, opened, watching}
use rigcontrol.PortControl.{Packet, Sender, Failure, State, gm_fail, decode_packet}

-- The variables that hold the sockets.
pub data Listener : Type 0 where
  ipv4_unicast_sock ipv4_multicast_sock ipv6_unicast_sock ipv6_multicast_sock : Listener

abbrev pub number_of : Listener → ℕ
number_of ipv4_unicast_sock = 0
number_of ipv4_multicast_sock = 1
number_of ipv6_unicast_sock = 2
number_of ipv6_multicast_sock = 3

-- What `GM_FAIL` is called for.
pub data ListenFailure : Type 0 where
  socket_failed no_link_local reuse_failed bind_failed membership_failed : ListenFailure

-- The variables, where `none` is -1; which descriptors are open; the select task's table.
pub record Net : Type 0 where
  pub sock : Listener → Option ℕ
  pub is_open : ℕ → Bool
  pub table : Table
  pub failures : List ListenFailure

abbrev pub assign : Listener → Option ℕ → (Listener → Option ℕ) → Listener → Option ℕ
assign w fd sock v = if number_of v == number_of w then fd else sock v

-- The results of `socket`, of the calls of `setsockopt`, and of `bind`.
pub data Membership : Type 0 where
  joined already_joined refused : Membership

pub record Results : Type 0 where
  pub socket : Option ℕ
  pub reuse : Bool
  pub bind : Bool
  pub membership : Membership

abbrev pub listen_fail : ListenFailure → Net → Net
listen_fail why n = record n { failures = n.failures ++ why ∷ [] }

-- The socket is stored whether it could be opened or not.
abbrev pub open_socket : Listener → Results → Net → Net
open_socket w r n = record n {
  sock = assign w r.socket n.sock;
  is_open = opened r.socket n.is_open;
}

-- Any other call on a descriptor of -1 fails.
abbrev pub works : Results → Bool → Bool
works r result = elim r.socket [ none ↦ false | some fd ↦ result ]

abbrev pub is_refused : Membership → Bool
is_refused refused = true
is_refused _ = false

abbrev pub check_socket : Option ℕ → Net → Net
check_socket none n = listen_fail socket_failed n
check_socket (some fd) n = n

abbrev pub fails_to_join : Membership → Bool
fails_to_join joined = false
fails_to_join _ = true

-- `handler` is the address of incoming_packet, `now` the time.
module _ (handler now : ℕ) where
  -- Only a socket is registered: what is registered was bound.
  unfoldable pub register : ℕ → Results → Net → Net
  unfolding gm_fd_register
  register data_pointer r n = elim r.socket [
    | none ↦ n
    | some fd ↦ record n { table = gm_fd_register fd (watching handler data_pointer) 0 now n.table }
  ]

  unfoldable pub start_multicast_listener_ipv4 : Results → Net → Net
  unfolding register
  start_multicast_listener_ipv4 r n =
      let m = open_socket ipv4_multicast_sock r n in
      if not (works r r.reuse)
      then listen_fail reuse_failed m
      else if not (works r r.bind)
      then listen_fail bind_failed m
      else if is_refused r.membership
      then listen_fail membership_failed m
      else register 1 r m

  unfoldable pub start_unicast_listener_ipv4 : Results → Net → Net
  unfolding register
  start_unicast_listener_ipv4 r n =
      let m = open_socket ipv4_unicast_sock r n in
      if not (works r r.bind) then listen_fail bind_failed m else register 0 r m

  unfoldable pub start_multicast_listener_ipv6 : Results → Net → Net
  unfolding register
  start_multicast_listener_ipv6 r n =
      let m = check_socket r.socket (open_socket ipv6_multicast_sock r n) in
      if not (works r r.reuse)
      then listen_fail reuse_failed m
      else if not (works r r.bind)
      then listen_fail bind_failed m
      else if fails_to_join r.membership
      then listen_fail membership_failed m
      else register 1 r m

  -- `unset` is whether the link-local address is all zeroes; neither that nor the refusal of
  -- SO_REUSEADDR ends the function.
  unfoldable pub start_unicast_listener_ipv6 : Bool → Results → Net → Net
  unfolding register
  start_unicast_listener_ipv6 unset r n =
      let checked = if unset then listen_fail no_link_local n else n in
      let o = open_socket ipv6_unicast_sock r checked in
      let m = if works r r.reuse then o else listen_fail reuse_failed o in
      if not (works r r.bind) then listen_fail bind_failed m else register 0 r m

  unfoldable pub gm_port_control_protocol_start_listener_ipv4 : Results → Results → Net → Net
  unfolding start_unicast_listener_ipv4 start_multicast_listener_ipv4
  gm_port_control_protocol_start_listener_ipv4 unicast multicast n =
      start_multicast_listener_ipv4 multicast (start_unicast_listener_ipv4 unicast n)

  unfoldable pub gm_port_control_protocol_start_listener_ipv6 : Bool → Results → Results → Net → Net
  unfolding start_unicast_listener_ipv6 start_multicast_listener_ipv6
  gm_port_control_protocol_start_listener_ipv6 unset unicast multicast n =
      start_multicast_listener_ipv6 multicast (start_unicast_listener_ipv6 unset unicast n)

-- A socket is unregistered, closed and forgotten.
unfoldable pub stop : Listener → Net → Net
unfolding gm_fd_unregister
stop w n = elim (n.sock w) [
  | none ↦ n
  | some fd ↦ record n {
    sock = assign w none n.sock;
    is_open = mark fd false n.is_open;
    table = gm_fd_unregister fd n.table;
  }
]

unfoldable pub gm_port_control_protocol_stop_listener_ipv4 : Net → Net
unfolding stop
gm_port_control_protocol_stop_listener_ipv4 n = stop ipv4_multicast_sock (stop ipv4_unicast_sock n)

unfoldable pub gm_port_control_protocol_stop_listener_ipv6 : Net → Net
unfolding stop
gm_port_control_protocol_stop_listener_ipv6 n = stop ipv6_multicast_sock (stop ipv6_unicast_sock n)

-- `recvfrom` gives a packet with its size and its sender, or no more than zero.
module _ (is_global : Bytes → Bool) where
  unfoldable pub incoming_packet : ℕ → Bool → Option (Packet × ℕ × Sender) → ℕ → State → State
  unfolding decode_packet gm_fail
  incoming_packet data_pointer false message now s = s
  incoming_packet data_pointer true none now s = gm_fail Failure.recvfrom_returned s
  incoming_packet data_pointer true (some (packet, message_size, address)) now s =
      decode_packet is_global packet message_size (not (data_pointer == 0)) address now s
