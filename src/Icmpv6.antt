-- ===== src/Icmpv6.antt =====
-- components/generic_main/icmpv6.c: the listener for router advertisements.
pub mod Router
mod Tests
use rigcontrol.Common.{
  ℕ, Bool, true, false, not, ◌&&◌, Option, none, some, Bytes, ltb, ◌==◌, if◌then◌else◌,
}
use rigcontrol.Select.{Entry, Table, gm_fd_register, gm_fd_unregister}
use rigcontrol.Wifi.Addresses.{is_zero}

-- `icmpv6_message_t`: what is read of it.
pub record Message : Type 0 where
  pub source_address : Bytes
  pub message_type : ℕ
  pub router_lifetime : ℕ

-- What stands in the buffers behind `recvfrom`, whose result is not looked at: the message, and the
-- sender with its address family.
pub record Arrival : Type 0 where
  pub message : Message
  pub inet6 : Bool
  pub sender : Bytes

abbrev pub icmpv6_router_advertisement : ℕ
icmpv6_router_advertisement = 134

-- `after` is the function that `data` points to.
module _ {W : Type 0} (after : Bytes → ℕ → W → W) where
  unfoldable pub decode_router_advertisement : Message → Bytes → W → W
  unfolding is_zero
  decode_router_advertisement m address w =
      if not (is_zero 16 m.source_address) && ltb 0 m.router_lifetime
      then after address m.router_lifetime w
      else w

  unfoldable pub decode_packet : Message → Bytes → W → W
  unfolding decode_router_advertisement
  decode_packet m address w =
      if m.message_type == icmpv6_router_advertisement
      then decode_router_advertisement m address w
      else w

  unfoldable pub incoming_packet : Bool → Arrival → W → W
  unfolding decode_packet
  incoming_packet readable a w =
      if readable then (if not a.inet6 then w else decode_packet a.message a.sender w) else w

-- `icmpv6_socket`, where `none` is -1, and the select task's table.
pub record Listener : Type 0 where
  pub icmpv6_socket : Option ℕ
  pub table : Table

-- `handler` is the address of incoming_packet and `after_address` that of `after`, which is not 0. The
-- socket is registered although it could not be opened: `none` is the write in front of the arrays.
unfoldable pub gm_icmpv6_start_listener_ipv6 : ℕ → ℕ → ℕ → Option ℕ → Listener → Option Listener
unfolding gm_fd_register
gm_icmpv6_start_listener_ipv6 handler after_address now none l = none
gm_icmpv6_start_listener_ipv6 handler after_address now (some fd) l = some (record l {
  icmpv6_socket = some fd;
  table =
      gm_fd_register fd
        (record {
          readable = not (after_address == 0);
          writable = false;
          exception = true;
          handler = some handler;
          data_pointer = after_address;
          timeout = 0;
        })
        0 now l.table;
})

unfoldable pub gm_icmpv6_stop_listener_ipv6 : Listener → Listener
unfolding gm_fd_unregister
gm_icmpv6_stop_listener_ipv6 l = elim l.icmpv6_socket [
  | none ↦ l
  | some fd ↦ record l { icmpv6_socket = none; table = gm_fd_unregister fd l.table }
]
