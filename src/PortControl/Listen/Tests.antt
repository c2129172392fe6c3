-- ===== src/PortControl/Listen/Tests.antt =====
-- Starting and stopping with descriptors 60 to 63, the last of which cannot be bound.
use mathlib.Core.Path.{subst}
use rigcontrol.Common.{ℕ, ◌≡◌, refl, Bool, true, false, Option, none, some, List, [], ◌∷◌, ltb}
use rigcontrol.Select.{cleared}
use rigcontrol.PortControl.Listen.{
  Net, Results, joined, start_unicast_listener_ipv4, stop, start_unicast_listener_ipv6,
  start_multicast_listener_ipv4, register,
}
use rigcontrol.PortControl.Listen.Sound.{Same}
use rigcontrol.PortControl.Listen.Lifecycle.{
  ListenCall, start_ipv4, start_ipv6, stop_ipv4, AreAllowed, IsAllowed, IsStopped, run_call,
  stopped_after, stopped_after-Same,
}
use rigcontrol.PortControl.Listen.Leak.{bound}

abbrev idle : Net
idle = record {
  sock = λ w. none;
  is_open = λ i. ltb i 60;
  table = record { fd_limit = 0; entries = λ i. cleared };
  failures = [];
}

abbrev unbound : ℕ → Results
unbound fd = record { socket = some fd; reuse = true; bind = false; membership = joined }

abbrev calls : List ListenCall
calls = start_ipv4 (bound 60) (bound 61) ∷ stop_ipv4 ∷ start_ipv6 false (bound 62) (unbound 63) ∷ []

unused :
    (a : ℕ) (is_open : ℕ → Bool)
    → is_open a ≡ false
    → (fd : ℕ) → Path (Option ℕ) (some a) (some fd)
    → is_open fd ≡ false
unused a is_open h fd e = subst (λ i. is_open i ≡ false) (some_eq e) h
  where
    some_eq : Path (Option ℕ) (some a) (some fd) → a ≡ fd
    some_eq e = cc

calls-AreAllowed : AreAllowed 7 0 calls idle
unfolding AreAllowed IsAllowed run_call start_unicast_listener_ipv4 start_unicast_listener_ipv6
    start_multicast_listener_ipv4 register stop
calls-AreAllowed = (
  (refl, refl, unused 60 _ refl, unused 61 _ refl),
  (tt, ((refl, refl, unused 62 _ refl, unused 63 _ refl), tt)),
)

stopped_after-Same_example :
    IsStopped (stopped_after 7 0 calls idle)
    × ((i : ℕ) → Same idle (stopped_after 7 0 calls idle) i)
stopped_after-Same_example =
    stopped_after-Same 7 0 calls idle (λ w. refl) (λ i e. refl) calls-AreAllowed
