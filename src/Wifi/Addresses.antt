-- ===== src/Wifi/Addresses.antt =====
-- wifi.c: ip_event_got_ip6 and ipv6_router_advertisement_handler, which keep the IPv6 addresses of
-- an interface and of the router.
pub mod First
use rigcontrol.Common.{
  ℕ, zero, suc, ◌+◌, Bool, true, false, ◌&&◌, not, Option, none, some, List, [], ◌∷◌, Bytes, get_or,
  replicate, set, str_eq, if◌then◌else◌,
}
use rigcontrol.AllZeroes.{Memory, gm_all_zeroes}

-- An `in6_addr` is 16 bytes, and is aligned.
abbrev pub memory_of : Bytes → Memory
memory_of address i = get_or address i 0

-- A call of gm_all_zeroes on a number of bytes of an address; it ends, since the number is a
-- multiple of four.
unfoldable pub is_zero : ℕ → Bytes → Bool
unfolding gm_all_zeroes
is_zero size address = elim (gm_all_zeroes (size + 1) (memory_of address) 0 size) [
  | some b ↦ b
  | none ↦ false
]

abbrev pub unset : Bytes
unset = replicate 16 0

-- `sockaddr_in6`: whether its family was set, and the address.
pub record Slot : Type 0 where
  pub inet6 : Bool
  pub address : Bytes

-- `struct gm_netif_ip6`, with the three slots for global addresses.
pub record Ip6 : Type 0 where
  pub link_local : Slot
  pub site_local : Slot
  pub site_unique : Slot
  pub global : List Slot
  pub router : Slot

-- `esp_ip6_addr_type_t`
pub data AddressType : Type 0 where
  unknown global link_local site_local unique_local ipv4_mapped : AddressType

abbrev pub no_slot : Slot
no_slot = record { inet6 = false; address = unset }

abbrev pub written : Bytes → Slot
written address = record { inet6 = true; address = address }

-- The loop over the slots, which stops one before the last. The size of a pointer is 4.
unfoldable pub put_global : ℕ → Bytes → List Slot → List Slot
unfolding is_zero str_eq
put_global zero address slots = slots
put_global (suc n) address [] = []
put_global (suc n) address (slot ∷ slots) =
    let rest = slot ∷ put_global n address slots in
    if str_eq slot.address address
    then slot ∷ slots
    else if is_zero 4 slot.address
    then written address ∷ slots
    else rest

-- The switch, for the address and its type.
unfoldable pub got_ip6 : AddressType → Bytes → Ip6 → Ip6
unfolding put_global
got_ip6 AddressType.unknown address ip6 = ip6
got_ip6 AddressType.global address ip6 = record ip6 { global = put_global 2 address ip6.global }
got_ip6 AddressType.link_local address ip6 = record ip6 { link_local = written address }
got_ip6 AddressType.site_local address ip6 = record ip6 { site_local = written address }
got_ip6 AddressType.unique_local address ip6 = record ip6 { site_unique = written address }
got_ip6 AddressType.ipv4_mapped address ip6 = ip6

-- The first router's address is kept.
unfoldable pub ipv6_router_advertisement_handler : Bytes → Ip6 → Ip6
unfolding is_zero str_eq
ipv6_router_advertisement_handler address ip6 =
    if not (is_zero 16 ip6.router.address) && not (str_eq ip6.router.address address)
    then ip6
    else record ip6 { router = written address }
