-- ===== src/PortControl/Listen/Lifecycle.antt =====
-- Any sequence of starts and stops of the listeners, as long as none is started twice.
use rigcontrol.Common.{
  ℕ, ◌≡◌, ◌∙◌, refl, sym, ap, inl, inr, Bool, Option, none, some, List, [], ◌∷◌, Option-cases,
}
use rigcontrol.PortControl.Listen.{
  Listener, ipv4_unicast_sock, ipv4_multicast_sock, ipv6_unicast_sock, ipv6_multicast_sock, Net,
  Results, start_unicast_listener_ipv4, start_unicast_listener_ipv6,
  gm_port_control_protocol_start_listener_ipv4, gm_port_control_protocol_start_listener_ipv6, stop,
  gm_port_control_protocol_stop_listener_ipv4, gm_port_control_protocol_stop_listener_ipv6,
}
use rigcontrol.PortControl.Listen.Started.{
  Started, start_unicast_ipv4-Started, start_multicast_ipv4-Started, start_unicast_ipv6-Started,
  start_multicast_ipv6-Started,
}
use rigcontrol.PortControl.Listen.Sound.{
  Same, IsTidy, IsSound, IsUnused, assign-other, assign_self, stop-IsSound,
}

none_some : (fd : ℕ) → Path (Option ℕ) none (some fd) → ⊥
none_some fd e = cc

-- The calls of the other parts.
pub data ListenCall : Type 0 where
  start_ipv4 : Results → Results → ListenCall
  start_ipv6 : Bool → Results → Results → ListenCall
  stop_ipv4 stop_ipv6 : ListenCall

module _ (handler now : ℕ) where
  unfoldable pub run_call : ListenCall → Net → Net
  unfolding gm_port_control_protocol_start_listener_ipv4
      gm_port_control_protocol_start_listener_ipv6 gm_port_control_protocol_stop_listener_ipv4
      gm_port_control_protocol_stop_listener_ipv6
  run_call (start_ipv4 unicast multicast) n =
      gm_port_control_protocol_start_listener_ipv4 handler now unicast multicast n
  run_call (start_ipv6 unset unicast multicast) n =
      gm_port_control_protocol_start_listener_ipv6 handler now unset unicast multicast n
  run_call stop_ipv4 n = gm_port_control_protocol_stop_listener_ipv4 n
  run_call stop_ipv6 n = gm_port_control_protocol_stop_listener_ipv6 n

  unfoldable pub run_calls : List ListenCall → Net → Net
  unfolding run_call
  run_calls [] n = n
  run_calls (c ∷ cs) n = run_calls cs (run_call c n)

  -- A start comes where the two variables hold no socket, and each socket is a descriptor that was
  -- not open.
  unfoldable pub IsAllowed : ListenCall → Net → Type 0
  unfolding start_unicast_listener_ipv4 start_unicast_listener_ipv6
  IsAllowed (start_ipv4 unicast multicast) n =
      (n.sock ipv4_unicast_sock ≡ none)
      × (n.sock ipv4_multicast_sock ≡ none)
      × IsUnused unicast.socket n
      × IsUnused multicast.socket (start_unicast_listener_ipv4 handler now unicast n)
  IsAllowed (start_ipv6 unset unicast multicast) n =
      (n.sock ipv6_unicast_sock ≡ none)
      × (n.sock ipv6_multicast_sock ≡ none)
      × IsUnused unicast.socket n
      × IsUnused multicast.socket (start_unicast_listener_ipv6 handler now unset unicast n)
  IsAllowed stop_ipv4 n = Unit
  IsAllowed stop_ipv6 n = Unit

  unfoldable pub AreAllowed : List ListenCall → Net → Type 0
  unfolding IsAllowed run_call
  AreAllowed [] n = Unit
  AreAllowed (c ∷ cs) n = IsAllowed c n × AreAllowed cs (run_call c n)

  module _ (base : Net) where
    run_call-IsSound :
        (c : ListenCall) (n : Net)
        → IsTidy base
        → IsAllowed c n
        → IsSound base n
        → IsSound base (run_call c n)
    unfolding run_call IsAllowed Started
    run_call-IsSound (start_ipv4 unicast multicast) n tidy (empty, also, unused, later) s =
        let (t, e) = start_unicast_ipv4-Started handler now base unicast n empty unused s in
        (start_multicast_ipv4-Started handler now base multicast _
          (ap (λ f. f ipv4_multicast_sock) e ∙ also) later t).0
    run_call-IsSound (start_ipv6 unset unicast multicast) n tidy (empty, also, unused, later) s =
        let (t, e) = start_unicast_ipv6-Started handler now base unset unicast n empty unused s in
        (start_multicast_ipv6-Started handler now base multicast _
          (ap (λ f. f ipv6_multicast_sock) e ∙ also) later t).0
    run_call-IsSound stop_ipv4 n tidy a s =
        stop-IsSound base ipv4_multicast_sock _ tidy (stop-IsSound base ipv4_unicast_sock n tidy s)
    run_call-IsSound stop_ipv6 n tidy a s =
        stop-IsSound base ipv6_multicast_sock _ tidy (stop-IsSound base ipv6_unicast_sock n tidy s)

    pub run_calls-IsSound :
        (cs : List ListenCall) (n : Net)
        → IsTidy base
        → AreAllowed cs n
        → IsSound base n
        → IsSound base (run_calls cs n)
    unfolding run_calls AreAllowed
    run_calls-IsSound [] n tidy a s = s
    run_calls-IsSound (c ∷ cs) n tidy (a, later) s =
        run_calls-IsSound cs (run_call c n) tidy later (run_call-IsSound c n tidy a s)

stop-sock : (w : Listener) (n : Net) → (stop w n).sock w ≡ none
unfolding stop
stop-sock w n = elim (Option-cases (n.sock w)) [
  | inr (fd, e) ↦ rw (e, stop) (assign_self w none n.sock)
  | inl e ↦ rw (e, stop) e
]

stop-none : (w v : Listener) (n : Net) → n.sock v ≡ none → (stop w n).sock v ≡ none
unfolding stop
stop-none w v n empty = elim (Option-cases (n.sock w)) [
  | inr (fd, e) ↦
      rw (e, stop) (assign-other w v none n.sock (λ q. none_some fd (sym empty ∙ q ∙ e)) ∙ empty)
  | inl e ↦ rw (e, stop) empty
]

-- The variables hold no sockets.
abbrev pub IsStopped : Net → Type 0
IsStopped n = (w : Listener) → n.sock w ≡ none

stopped-IsSound : (base : Net) → IsStopped base → IsSound base base
stopped-IsSound base stopped = record {
  distinct = λ v w fd e k. absurd (none_some fd (sym (stopped v) ∙ e));
  is_open = λ w fd e. absurd (none_some fd (sym (stopped w) ∙ e));
  is_new = λ w fd e. absurd (none_some fd (sym (stopped w) ∙ e));
  others = λ i. inr (refl, refl);
}

module _ (handler now : ℕ) where
  -- After any allowed calls, both listeners stopped.
  abbrev pub stopped_after : List ListenCall → Net → Net
  unfolding run_calls gm_port_control_protocol_stop_listener_ipv4
      gm_port_control_protocol_stop_listener_ipv6
  stopped_after cs base =
      gm_port_control_protocol_stop_listener_ipv6
        (gm_port_control_protocol_stop_listener_ipv4 (run_calls handler now cs base))

  stopped_after-IsStopped : (cs : List ListenCall) (base : Net) → IsStopped (stopped_after cs base)
  unfolding stopped_after gm_port_control_protocol_stop_listener_ipv4
      gm_port_control_protocol_stop_listener_ipv6
  stopped_after-IsStopped cs base w = by_listener w
    where
      n : Net
      n = run_calls handler now cs base

      n1 : Net
      n1 = stop ipv4_unicast_sock n

      n2 : Net
      n2 = stop ipv4_multicast_sock n1

      n3 : Net
      n3 = stop ipv6_unicast_sock n2

      by_listener : (w : Listener) → (stop ipv6_multicast_sock n3).sock w ≡ none
      by_listener ipv4_unicast_sock = stop-none ipv6_multicast_sock _ n3 (
          stop-none ipv6_unicast_sock _ n2
            (stop-none ipv4_multicast_sock _ n1 (stop-sock ipv4_unicast_sock n)))
      by_listener ipv4_multicast_sock =
          stop-none ipv6_multicast_sock _ n3
            (stop-none ipv6_unicast_sock _ n2 (stop-sock ipv4_multicast_sock n1))
      by_listener ipv6_unicast_sock =
          stop-none ipv6_multicast_sock _ n3 (stop-sock ipv6_unicast_sock n2)
      by_listener ipv6_multicast_sock = stop-sock ipv6_multicast_sock n3

  -- From a state in which the four variables hold no sockets and no closed descriptor is in the select
  -- task's table, after any sequence of starts and stops, none of them a start of a listener that is
  -- not stopped, and with sockets that were not open, failed ones included, stopping both listeners
  -- leaves the variables empty, and exactly the descriptors open and registered that were so before.
  pub stopped_after-Same :
      (cs : List ListenCall) (base : Net)
      → IsStopped base
      → IsTidy base
      → AreAllowed handler now cs base
      → IsStopped (stopped_after cs base) × ((i : ℕ) → Same base (stopped_after cs base) i)
  unfolding stopped_after gm_port_control_protocol_stop_listener_ipv4
      gm_port_control_protocol_stop_listener_ipv6
  stopped_after-Same cs base stopped tidy allowed = (stopped_after-IsStopped cs base, same)
    where
      sound : IsSound base (stopped_after cs base)
      sound = stop-IsSound base ipv6_multicast_sock _ tidy (
          stop-IsSound base ipv6_unicast_sock _ tidy (
            stop-IsSound base ipv4_multicast_sock _ tidy (
              stop-IsSound base ipv4_unicast_sock _ tidy (
                run_calls-IsSound handler now base cs base tidy allowed
                  (stopped-IsSound base stopped)))))

      same : (i : ℕ) → Same base (stopped_after cs base) i
      same i = elim (sound.others i) [
        | inl (w, held) ↦ absurd (none_some i (sym (stopped_after-IsStopped cs base w) ∙ held))
        | inr s ↦ s
      ]
