-- ===== src/PortControl/Listen/Started.antt =====
-- Each start of a listener leaves the descriptors sound, whatever its calls of the platform give.
use rigcontrol.Common.{
  ℕ, ◌≡◌, ◌∙◌, refl, ap, inl, inr, Bool, true, false, not, Option, none, some, if◌then◌else◌,
  Option-cases,
}
use rigcontrol.PortControl.Listen.{
  Listener, ipv4_unicast_sock, ipv4_multicast_sock, ipv6_unicast_sock, ipv6_multicast_sock, Net,
  assign, Results, no_link_local, listen_fail, open_socket, works, is_refused, register,
  start_multicast_listener_ipv4, start_unicast_listener_ipv4, check_socket, fails_to_join,
  start_multicast_listener_ipv6, start_unicast_listener_ipv6,
}
use rigcontrol.PortControl.Listen.Sound.{
  IsSound, IsUnused, assign_self, listen_fail-IsSound, open_socket-IsSound, register-IsSound,
}

if-P {ℓ κ} : {A : Type ℓ} (P : A → Type κ) (b : Bool) (x y : A) → P x → P y → P (if b then x else y)
if-P P true x y p q = p
if-P P false x y p q = q

module _ (handler now : ℕ) (base : Net) where
  -- The variable holds what `socket` gave, and the others what they held.
  unfoldable pub Started : Listener → Results → Net → Net → Type 0
  Started w r n m = IsSound base m × (m.sock ≡ assign w r.socket n.sock)

  listen_fail-Started :
      (w : Listener) (r : Results) (n m : Net) (why : _)
      → Started w r n m
      → Started w r n (listen_fail why m)
  unfolding Started
  listen_fail-Started w r n m why (s, e) = (listen_fail-IsSound base why s, e)

  open_socket-Started :
      (w : Listener) (r : Results) (n : Net)
      → n.sock w ≡ none
      → IsUnused r.socket n
      → IsSound base n
      → Started w r n (open_socket w r n)
  unfolding Started
  open_socket-Started w r n empty unused s = (open_socket-IsSound base w r n empty unused s, refl)

  register-sock :
      (data_pointer : ℕ) (r : Results) (n : Net)
      → (register handler now data_pointer r n).sock ≡ n.sock
  unfolding register
  register-sock data_pointer r n = elim (Option-cases r.socket) [
    | inl e ↦ rw e refl
    | inr (fd, e) ↦ rw e refl
  ]

  register-Started :
      (data_pointer : ℕ) (w : Listener) (r : Results) (n m : Net)
      → Started w r n m
      → Started w r n (register handler now data_pointer r m)
  unfolding Started
  register-Started data_pointer w r n m (s, e) = (
    register-IsSound base handler now data_pointer w r m
        (ap (λ f. f w) e ∙ assign_self w r.socket n.sock) s,
    register-sock data_pointer r m ∙ e,
  )

  pub start_unicast_ipv4-Started :
      (r : Results) (n : Net)
      → n.sock ipv4_unicast_sock ≡ none
      → IsUnused r.socket n
      → IsSound base n
      → Started ipv4_unicast_sock r n (start_unicast_listener_ipv4 handler now r n)
  unfolding start_unicast_listener_ipv4
  start_unicast_ipv4-Started r n empty unused s =
      let o = open_socket-Started ipv4_unicast_sock r n empty unused s in
      if-P (Started ipv4_unicast_sock r n) (not (works r r.bind)) _ _
        (listen_fail-Started ipv4_unicast_sock r n _ _ o)
        (register-Started 0 ipv4_unicast_sock r n _ o)

  pub start_multicast_ipv4-Started :
      (r : Results) (n : Net)
      → n.sock ipv4_multicast_sock ≡ none
      → IsUnused r.socket n
      → IsSound base n
      → Started ipv4_multicast_sock r n (start_multicast_listener_ipv4 handler now r n)
  unfolding start_multicast_listener_ipv4
  start_multicast_ipv4-Started r n empty unused s =
      let w = ipv4_multicast_sock in
      let o = open_socket-Started w r n empty unused s in
      let fails = λ (why : _). listen_fail-Started w r n _ why o in
      if-P (Started w r n) (not (works r r.reuse)) _ _ (fails _) (
        if-P (Started w r n) (not (works r r.bind)) _ _ (fails _) (
          if-P (Started w r n) (is_refused r.membership) _ _ (fails _)
            (register-Started 1 w r n _ o)))

  check_socket-Started :
      (w : Listener) (r : Results) (n m : Net) (o : Option ℕ)
      → Started w r n m
      → Started w r n (check_socket o m)
  check_socket-Started w r n m none s = listen_fail-Started w r n m _ s
  check_socket-Started w r n m (some fd) s = s

  pub start_multicast_ipv6-Started :
      (r : Results) (n : Net)
      → n.sock ipv6_multicast_sock ≡ none
      → IsUnused r.socket n
      → IsSound base n
      → Started ipv6_multicast_sock r n (start_multicast_listener_ipv6 handler now r n)
  unfolding start_multicast_listener_ipv6
  start_multicast_ipv6-Started r n empty unused s =
      let w = ipv6_multicast_sock in
      let o =
        check_socket-Started w r n (open_socket w r n) r.socket
          (open_socket-Started w r n empty unused s) in
      let fails = λ (why : _). listen_fail-Started w r n _ why o in
      if-P (Started w r n) (not (works r r.reuse)) _ _ (fails _) (
        if-P (Started w r n) (not (works r r.bind)) _ _ (fails _) (
          if-P (Started w r n) (fails_to_join r.membership) _ _ (fails _)
            (register-Started 1 w r n _ o)))

  opened_unicast_ipv6-Started :
      (r : Results) (n : Net)
      → n.sock ipv6_unicast_sock ≡ none
      → IsUnused r.socket n
      → IsSound base n
      → Started ipv6_unicast_sock r n (start_unicast_listener_ipv6 handler now false r n)
  unfolding start_unicast_listener_ipv6
  opened_unicast_ipv6-Started r n empty unused s =
      let w = ipv6_unicast_sock in
      let o = open_socket-Started w r n empty unused s in
      let m = if-P (Started w r n) (works r r.reuse) _ _ o (listen_fail-Started w r n _ _ o) in
      if-P (Started w r n) (not (works r r.bind)) _ _ (listen_fail-Started w r n _ _ m)
        (register-Started 0 w r n _ m)

  pub start_unicast_ipv6-Started :
      (unset : Bool) (r : Results) (n : Net)
      → n.sock ipv6_unicast_sock ≡ none
      → IsUnused r.socket n
      → IsSound base n
      → Started ipv6_unicast_sock r n (start_unicast_listener_ipv6 handler now unset r n)
  unfolding start_unicast_listener_ipv6 Started
  start_unicast_ipv6-Started false r n empty unused s =
      opened_unicast_ipv6-Started r n empty unused s
  start_unicast_ipv6-Started true r n empty unused s =
      opened_unicast_ipv6-Started r (listen_fail no_link_local n) empty unused
        (listen_fail-IsSound base no_link_local s)
