-- ===== src/Icmpv6/Router.antt =====
-- The listener and wifi.c together: which router's address is kept.
use rigcontrol.Common.{
  ℕ, ◌≡◌, ◌∙◌, refl, sym, ap, inl, inr, Bool, true, false, not, ◌&&◌, List, [], ◌∷◌, All, Bytes,
  ltb, ◌==◌, if◌then◌else◌, Bool-cases, str_eq, str_eq_iff,
}
use rigcontrol.Wifi.Addresses.{is_zero, Slot, Ip6, written, ipv6_router_advertisement_handler}
use rigcontrol.Icmpv6.{
  Arrival, icmpv6_router_advertisement, decode_router_advertisement, decode_packet, incoming_packet,
}

-- The handler that wifi.c hands to the listener.
abbrev pub after : Bytes → ℕ → Ip6 → Ip6
unfolding ipv6_router_advertisement_handler
after address router_lifetime ip6 = ipv6_router_advertisement_handler address ip6

unfoldable pub receive : List Arrival → Ip6 → Ip6
unfolding incoming_packet after
receive [] ip6 = ip6
receive (a ∷ more) ip6 = receive more (incoming_packet after true a ip6)

-- A router advertisement over IPv6, from an address, with a lifetime.
abbrev pub is_advertisement : Arrival → Bool
unfolding is_zero
is_advertisement a =
    a.inet6
    && (a.message.message_type == icmpv6_router_advertisement
        && (not (is_zero 16 a.message.source_address) && ltb 0 a.message.router_lifetime))

-- The slot behind the first advertisement of a sequence.
unfoldable pub first_router : List Arrival → Slot → Slot
unfolding is_advertisement
first_router [] router = router
first_router (a ∷ more) router =
    let rest = first_router more router in if is_advertisement a then written a.sender else rest

incoming_packet_cases :
    (a : Arrival) (ip6 : Ip6)
    → incoming_packet after true a ip6
      ≡ (if is_advertisement a then ipv6_router_advertisement_handler a.sender ip6 else ip6)
unfolding incoming_packet after decode_packet decode_router_advertisement is_advertisement
incoming_packet_cases a ip6 =
    by_tests a.inet6 (a.message.message_type == icmpv6_router_advertisement)
      (not (is_zero 16 a.message.source_address) && ltb 0 a.message.router_lifetime)
      (ipv6_router_advertisement_handler a.sender ip6) ip6
  where
    by_tests :
        (i t z : Bool) (x y : Ip6)
        → (if not i then y else if t then (if z then x else y) else y)
          ≡ (if i && (t && z) then x else y)
    by_tests true true true x y = refl
    by_tests true true false x y = refl
    by_tests true false z x y = refl
    by_tests false t z x y = refl

abbrev pub IsNonzero : Bytes → Type 0
unfolding is_zero
IsNonzero address = is_zero 16 address ≡ false

-- What the handler makes of the slot.
abbrev kept_slot : Bytes → Slot → Slot
unfolding is_zero str_eq
kept_slot b router =
    if not (is_zero 16 router.address) && not (str_eq router.address b) then router else written b

handler-router :
    (b : Bytes) (ip6 : Ip6)
    → (ipv6_router_advertisement_handler b ip6).router ≡ kept_slot b ip6.router
unfolding ipv6_router_advertisement_handler kept_slot
handler-router b ip6 =
    by_test (not (is_zero 16 ip6.router.address) && not (str_eq ip6.router.address b))
  where
    by_test :
        (t : Bool)
        → (if t then ip6 else record ip6 { router = written b }).router
          ≡ (if t then ip6.router else written b)
    by_test true = refl
    by_test false = refl

-- Once a router's address is kept, it stays.
kept_slot-written :
    (address b : Bytes) → IsNonzero address → kept_slot b (written address) ≡ written address
unfolding kept_slot
kept_slot-written address b h = elim (Bool-cases (str_eq address b)) [
  | inl k ↦ rw (h, k) (ap written (sym ((str_eq_iff address b).0 k)))
  | inr k ↦ rw (h, k) refl
]

kept_slot-unset :
    (b : Bytes) (router : Slot) → is_zero 16 router.address ≡ true → kept_slot b router ≡ written b
unfolding kept_slot
kept_slot-unset b router unset = rw unset refl

kept-handler :
    (address b : Bytes) (ip6 : Ip6)
    → IsNonzero address
    → ip6.router ≡ written address
    → (ipv6_router_advertisement_handler b ip6).router ≡ written address
kept-handler address b ip6 h e =
    handler-router b ip6 ∙ ap (kept_slot b) e ∙ kept_slot-written address b h

kept-receive :
    (arrivals : List Arrival) (address : Bytes) (ip6 : Ip6)
    → IsNonzero address
    → ip6.router ≡ written address
    → (receive arrivals ip6).router ≡ written address
unfolding receive
kept-receive [] address ip6 h e = e
kept-receive (a ∷ more) address ip6 h e =
    kept-receive more address _ h
      (ap (λ i. i.router) (incoming_packet_cases a ip6) ∙ by_test (is_advertisement a))
  where
    by_test :
        (b : Bool)
        → (if b then ipv6_router_advertisement_handler a.sender ip6 else ip6).router
          ≡ written address
    by_test true = kept-handler address a.sender ip6 h e
    by_test false = e

-- The first router of which an advertisement arrives is kept, whatever arrives behind it: the slot of
-- the router holds the sender of the first ICMPv6 router advertisement that came from an address and
-- has a lifetime, or what it held before if there is none; if it held no address before, and no
-- packet is from the unspecified address.
pub receive-first_router :
    (arrivals : List Arrival) (ip6 : Ip6)
    → is_zero 16 ip6.router.address ≡ true
    → All (λ a. IsNonzero a.sender) arrivals
    → (receive arrivals ip6).router ≡ first_router arrivals ip6.router
unfolding receive first_router
receive-first_router [] ip6 unset nonzero = refl
receive-first_router (a ∷ more) ip6 unset (h, nonzero) =
    by_test (receive-first_router more ip6 unset nonzero) (is_advertisement a) refl
  where
    arrived : Ip6
    arrived = incoming_packet after true a ip6

    by_test :
        (receive more ip6).router ≡ first_router more ip6.router
        → (b : Bool) → is_advertisement a ≡ b
        → (receive more arrived).router
          ≡ (if b then written a.sender else first_router more ip6.router)
    by_test rest true k =
        let handled : arrived ≡ ipv6_router_advertisement_handler a.sender ip6 =
          incoming_packet_cases a ip6 ∙ rw k refl in
        kept-receive more a.sender arrived h (
          ap (λ i. i.router) handled
          ∙ handler-router a.sender ip6
          ∙ kept_slot-unset a.sender ip6.router unset)
    by_test rest false k =
        let same : arrived ≡ ip6 = incoming_packet_cases a ip6 ∙ rw k refl in
        ap (λ i. (receive more i).router) same ∙ rest
