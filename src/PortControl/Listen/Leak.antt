-- ===== src/PortControl/Listen/Leak.antt =====
-- Starting the listeners once more while they are started, as wifi.c does for each address it is
-- given, and what a packet on a socket for multicasts can do.
use rigcontrol.Common.{
  ℕ, arith, ◌≡◌, ◌≢◌, ◌∙◌, refl, sym, ap, inl, inr, Bool, true, false, not, Option, none, some,
  Bytes, ◌==◌, ==_iff, Bool-cases,
}
use rigcontrol.Select.{is_set, gm_fd_register, gm_fd_unregister}
use rigcontrol.PortControl.{Packet, Sender, State, gm_fail}
use rigcontrol.PortControl.Response.{Keeps, Accepted, decode_packet_cases}
use rigcontrol.PortControl.Listen.{
  ipv4_unicast_sock, joined, Net, Results, register, start_unicast_listener_ipv4, stop,
  incoming_packet,
}

-- A packet that arrives on a socket that is registered with any data but 0, as those for multicasts
-- are, adds no mapping and takes none away.
pub incoming_packet-Keeps :
    (is_global : Bytes → Bool) (data_pointer : ℕ) (readable : Bool)
    (message : Option (Packet × ℕ × Sender)) (now : ℕ) (s : State)
    → data_pointer ≢ 0
    → Keeps s (incoming_packet is_global data_pointer readable message now s)
unfolding incoming_packet gm_fail Accepted
incoming_packet-Keeps is_global d false message now s multicast = (refl, refl)
incoming_packet-Keeps is_global d true none now s multicast = (refl, refl)
incoming_packet-Keeps is_global d true (some (packet, size, address)) now s multicast =
    elim (decode_packet_cases is_global packet size (not (d == 0)) address now s) [
      | inr (refuses, kept) ↦ kept
      | inl (accepted, e) ↦ absurd (unicast (accepted.1.2))
    ]
  where
    unicast : not (d == 0) ≡ false → ⊥
    unicast e = elim (Bool-cases (d == 0)) [
      | inl k ↦ multicast ((==_iff d 0).0 k)
      | inr k ↦ true_false (sym (ap not k) ∙ e)
    ]
      where
        true_false : true ≡ false → ⊥
        true_false q = cc

abbrev pub bound : ℕ → Results
bound fd = record { socket = some fd; reuse = true; bind = true; membership = joined }

-- A listener that is started twice and then stopped leaves its first socket open and registered, and
-- the variable empty, if the second socket is another one.
pub start_unicast_listener_ipv4_twice :
    (handler now a b : ℕ) (n : Net)
    → a ≢ b
    → let stopped = stop ipv4_unicast_sock (
        start_unicast_listener_ipv4 handler now
          (bound b)
          (start_unicast_listener_ipv4 handler now (bound a) n)) in
      (stopped.sock ipv4_unicast_sock ≡ none)
      × (stopped.is_open a ≡ true)
      × (is_set (stopped.table.entries a) ≡ true)
unfolding start_unicast_listener_ipv4 register stop gm_fd_register gm_fd_unregister
start_unicast_listener_ipv4_twice handler now a b n differ =
    let other : (a == b) ≡ false = ground arith in
    let self : (a == a) ≡ true = (==_iff a a).1 refl in
    (refl, rw (other, self) refl, rw (other, self) refl)
