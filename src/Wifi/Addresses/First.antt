-- ===== src/Wifi/Addresses/First.antt =====
-- The slots hold the first two addresses that were got.
use rigcontrol.Common.{
  ℕ, ◌*◌, ◌<◌, ◌≡◌, ◌↔◌, ◌∙◌, refl, sym, ap, inl, inr, arith, Bool, true, false, List, [], ◌∷◌,
  ◌++◌, All, All-append, Bytes, replicate, str_eq, str_eq_iff, if◌then◌else◌, Bool-cases,
}
use rigcontrol.AllZeroes.{leading, words, compare_rest, gm_all_zeroes}
use rigcontrol.AllZeroes.Compare.{Zeroes, gm_all_zeroes_iff}
use rigcontrol.Wifi.Addresses.{
  memory_of, is_zero, unset, Slot, Ip6, AddressType, no_slot, written, put_global, got_ip6,
  ipv6_router_advertisement_handler,
}

-- An address whose first word is not zero, as those of global addresses are.
abbrev pub IsNonzero : Bytes → Type 0
IsNonzero address = is_zero 4 address ≡ false

-- The call of gm_all_zeroes ends, and finds whether the bytes are zero.
pub is_zero_iff :
    (n : ℕ) (address : Bytes)
    → n < 5
    → (is_zero (n * 4) address ≡ true) ↔ Zeroes (memory_of address) 0 (n * 4)
unfolding is_zero
is_zero_iff n address h =
    let (b, e, tells) =
      gm_all_zeroes_iff (memory_of address) 0 (n * 4) (inr (refl, omega arith)) (omega arith) in
    rw (e, is_zero) tells

-- The addresses that were got, each once, in the order of the first time.
abbrev pub member : Bytes → List Bytes → Bool
unfolding str_eq
member a [] = false
member a (b ∷ bs) = let rest = member a bs in if str_eq b a then true else rest

abbrev pub collect : List Bytes → List Bytes → List Bytes
collect seen [] = seen
collect seen (a ∷ more) = collect (if member a seen then seen else seen ++ a ∷ []) more

abbrev pub slots_of : List Bytes → List Slot
slots_of [] = replicate 3 no_slot
slots_of (a ∷ []) = written a ∷ replicate 2 no_slot
slots_of (a ∷ b ∷ rest) = written a ∷ written b ∷ no_slot ∷ []

-- The interface's slots after a sequence of addresses.
unfoldable pub got_all : List Bytes → Ip6 → Ip6
unfolding got_ip6
got_all [] ip6 = ip6
got_all (a ∷ more) ip6 = got_all more (got_ip6 AddressType.global a ip6)

unset_zero : is_zero 4 unset ≡ true
unfolding is_zero gm_all_zeroes leading compare_rest words
unset_zero = refl

not_unset : (a : Bytes) → IsNonzero a → str_eq unset a ≡ false
not_unset a h = elim (Bool-cases (str_eq unset a)) [
  | inl e ↦ absurd (differ (sym unset_zero ∙ ap (is_zero 4) ((str_eq_iff _ _).0 e) ∙ h))
  | inr e ↦ e
]
  where
    differ : Path Bool true false → ⊥
    differ e = cc

put_global-slots_of :
    (seen : List Bytes) (a : Bytes)
    → All IsNonzero seen
    → IsNonzero a
    → put_global 2 a (slots_of seen) ≡ slots_of (if member a seen then seen else seen ++ a ∷ [])
unfolding put_global
put_global-slots_of [] a s h = rw (not_unset a h, unset_zero, put_global) refl
put_global-slots_of (x ∷ []) a (s, ss) h = elim (Bool-cases (str_eq x a)) [
  | inl e ↦ rw (e, put_global) refl
  | inr e ↦ rw (e, s, not_unset a h, unset_zero, put_global) refl
]
put_global-slots_of (x ∷ y ∷ seen) a (s, (t, ss)) h = elim (Bool-cases (str_eq x a)) [
  | inl e ↦ rw (e, put_global) refl
  | inr e ↦ elim (Bool-cases (str_eq y a)) [
    | inl k ↦ rw (e, s, k, put_global) refl
    | inr k ↦ elim (Bool-cases (member a seen)) [
      | inl m ↦ rw (e, s, k, t, m, put_global) refl
      | inr m ↦ rw (e, s, k, t, m, put_global) refl
    ]
  ]
]

All-collect_step :
    (seen : List Bytes) (a : Bytes)
    → All IsNonzero seen
    → IsNonzero a
    → All IsNonzero (if member a seen then seen else seen ++ a ∷ [])
All-collect_step seen a s h = elim (Bool-cases (member a seen)) [
  | inl e ↦ rw e s
  | inr e ↦ rw e (All-append IsNonzero seen (a ∷ []) s (h, tt))
]

got_all-slots_of :
    (seen more : List Bytes) (ip6 : Ip6)
    → All IsNonzero seen
    → All IsNonzero more
    → ip6.global ≡ slots_of seen
    → (got_all more ip6).global ≡ slots_of (collect seen more)
unfolding got_all got_ip6
got_all-slots_of seen [] ip6 s h e = e
got_all-slots_of seen (a ∷ more) ip6 s (k, h) e =
    got_all-slots_of (if member a seen then seen else seen ++ a ∷ []) more
      (got_ip6 AddressType.global a ip6) (All-collect_step seen a s k) h
      (ap (put_global 2 a) e ∙ put_global-slots_of seen a s k)

-- Whatever global addresses an interface gets whose first word is not zero, its slots hold the first
-- two of them that differ, in the order in which they came, each once; the third slot stays unused.
pub got_all-collect :
    (more : List Bytes) (ip6 : Ip6)
    → All IsNonzero more
    → ip6.global ≡ replicate 3 no_slot
    → (got_all more ip6).global ≡ slots_of (collect [] more)
got_all-collect more ip6 h e = got_all-slots_of [] more ip6 tt h e

-- The advertisements of a sequence of routers.
unfoldable pub advertise_all : List Bytes → Ip6 → Ip6
unfolding ipv6_router_advertisement_handler
advertise_all [] ip6 = ip6
advertise_all (r ∷ rs) ip6 = advertise_all rs (ipv6_router_advertisement_handler r ip6)

advertise_again :
    (a r : Bytes) (ip6 : Ip6)
    → ip6.router ≡ written r
    → is_zero 16 r ≡ false
    → (ipv6_router_advertisement_handler a ip6).router ≡ written r
unfolding ipv6_router_advertisement_handler
advertise_again a r ip6 e n = elim (Bool-cases (str_eq r a)) [
  | inl k ↦
      rw (e, n, k, ipv6_router_advertisement_handler) (ap written (sym ((str_eq_iff r a).0 k)))
  | inr k ↦ rw (e, n, k, ipv6_router_advertisement_handler) refl
]

advertise_all-kept :
    (rs : List Bytes) (r : Bytes) (ip6 : Ip6)
    → ip6.router ≡ written r
    → is_zero 16 r ≡ false
    → (advertise_all rs ip6).router ≡ written r
unfolding advertise_all
advertise_all-kept [] r ip6 e n = e
advertise_all-kept (a ∷ rs) r ip6 e n =
    advertise_all-kept rs r (ipv6_router_advertisement_handler a ip6) (advertise_again a r ip6 e n)
      n

-- The first router that advertises itself is kept, whichever others do so later.
pub advertise_all-first :
    (r : Bytes) (rs : List Bytes) (ip6 : Ip6)
    → is_zero 16 r ≡ false
    → is_zero 16 ip6.router.address ≡ true
    → (advertise_all (r ∷ rs) ip6).router ≡ written r
unfolding advertise_all ipv6_router_advertisement_handler
advertise_all-first r rs ip6 n e =
    advertise_all-kept rs r (ipv6_router_advertisement_handler r ip6) first n
  where
    first : (ipv6_router_advertisement_handler r ip6).router ≡ written r
    first = rw (e, ipv6_router_advertisement_handler) refl
