-- ===== src/Icmpv6/Tests.antt =====
-- An echo, an advertisement without a lifetime, and two routers.
use rigcontrol.Common.{ℕ, ◌≡◌, refl, true, List, [], ◌∷◌, Bytes, All, replicate, ◌++◌}
use rigcontrol.Wifi.Addresses.{is_zero, Ip6, no_slot, unset}
use rigcontrol.AllZeroes.{gm_all_zeroes, leading, words, compare_rest}
use rigcontrol.Icmpv6.{Arrival}
use rigcontrol.Icmpv6.Router.{receive, first_router, IsNonzero, receive-first_router}

abbrev router : ℕ → Bytes
router n = 254 ∷ 128 ∷ replicate 13 0 ++ n ∷ []

abbrev arrival : ℕ → ℕ → ℕ → Arrival
arrival n message_type lifetime = record {
  message = record {
    source_address = router n;
    message_type = message_type;
    router_lifetime = lifetime;
  };
  inet6 = true;
  sender = router n;
}

abbrev arrivals : List Arrival
arrivals = arrival 3 128 0 ∷ arrival 4 134 0 ∷ arrival 5 134 1800 ∷ arrival 6 134 1800 ∷ []

abbrev none_yet : Ip6
none_yet = record {
  link_local = no_slot;
  site_local = no_slot;
  site_unique = no_slot;
  global = [];
  router = no_slot;
}

unset_zero : is_zero 16 unset ≡ true
unfolding is_zero gm_all_zeroes leading compare_rest words
unset_zero = refl

senders : All (λ (a : Arrival). IsNonzero a.sender) arrivals
unfolding is_zero gm_all_zeroes leading compare_rest words
senders = (refl, (refl, (refl, (refl, tt))))

receive-first_router_example : (receive arrivals none_yet).router ≡ first_router arrivals no_slot
receive-first_router_example = receive-first_router arrivals none_yet unset_zero senders
