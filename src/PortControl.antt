-- ===== src/PortControl.antt =====
-- components/generic_main/port_control_protocol.c: requests for port mappings and the router's
-- responses. Words of a packet are kept as they stand in it, in network byte order.
pub mod Response
pub mod Exchange
pub mod Listen
mod Tests
use rigcontrol.Common.{
  ℕ, zero, suc, ◌+◌, ◌*◌, ◌/◌, ◌%◌, ◌^◌, Bool, true, false, not, Option, none, some, List, [], ◌∷◌,
  ◌++◌, Bytes, replicate, get_or, take, ltb, leb, ◌==◌, if◌then◌else◌, bit_or, str_eq,
}

-- `htons` and `ntohs`.
abbrev pub htons : ℕ → ℕ
htons x = x % 256 * 256 + x / 256 % 256

-- `htonl` and `ntohl`.
abbrev pub htonl : ℕ → ℕ
htonl x = htons (x % 2 ^ 16) * 2 ^ 16 + htons (x / 2 ^ 16)

-- `memcmp(a, b, n) < 0`
unfoldable pub memcmp_less : Bytes → Bytes → Bool
memcmp_less [] b = false
memcmp_less (x ∷ a) [] = false
memcmp_less (x ∷ a) (y ∷ b) = let rest = memcmp_less a b in if x == y then rest else ltb x y

-- `nat_pmp_or_pcp_t` as a PCP map packet: `shared` is the union of the client's address in a request
-- with the epoch and the reserved words of a response.
pub record Packet : Type 0 where
  pub version : ℕ
  pub opcode : ℕ
  pub result_code : ℕ
  pub lifetime : ℕ
  pub shared : Bytes
  pub nonce : Bytes
  pub protocol : ℕ
  pub internal_port : ℕ
  pub external_port : ℕ
  pub external_address : Bytes

-- `gm_port_mapping_t`, without the link to the next one.
pub record Mapping : Type 0 where
  pub granted_time : ℕ
  pub nonce : Bytes
  pub epoch : ℕ
  pub lifetime : ℕ
  pub internal_port : ℕ
  pub external_port : ℕ
  pub external_address : Bytes
  pub ipv6 : Bool
  pub tcp : Bool

-- `struct sockaddr_storage` of a sender: its port and address as they are stored.
pub data Sender : Type 0 where
  inet : ℕ → Bytes → Sender
  inet6 : ℕ → Bytes → Sender
  other_family : Sender

-- `last_request_t`
pub record LastRequest : Type 0 where
  pub address : Sender
  pub packet : Packet
  pub time : ℕ
  pub valid : Bool

-- What `GM_FAIL` is called for.
pub data Failure : Type 0 where
  send_returned recvfrom_returned family not_the_port not_the_router received_request
        multicast_request :
      Failure
  too_small unrecognized nonce_differs result_code opcode : Failure

-- The two last requests, the parts of `GM.sta` that the protocol uses, and the failures printed.
pub record State : Type 0 where
  pub last_request_ipv4 : LastRequest
  pub last_request_ipv6 : LastRequest
  pub router4 : Bytes
  pub address4 : Bytes
  pub router6 : Bytes
  pub link_local6 : Bytes
  pub port_mappings4 : List Mapping
  pub port_mappings6 : List Mapping
  pub failures : List Failure

unfoldable pub gm_fail : Failure → State → State
gm_fail why s = record s { failures = s.failures ++ why ∷ [] }

abbrev pub pcp_port : ℕ
pcp_port = 5351

abbrev pub pcp_map : ℕ
pcp_map = 1

abbrev pub map_packet_size : ℕ
map_packet_size = 60

abbrev pub protocol_of : Bool → ℕ
protocol_of tcp = if tcp then 6 else 17

abbrev pub zeroes_ffff : Bytes
zeroes_ffff = replicate 10 0 ++ 0xff ∷ 0xff ∷ []

-- The packet of a request, from the client's address and the suggested external one.
abbrev pub request_packet : Bytes → Bytes → Mapping → Packet
request_packet client external m = record {
  version = 2;
  opcode = pcp_map;
  result_code = 0;
  lifetime = htonl m.lifetime;
  shared = client;
  nonce = m.nonce;
  protocol = protocol_of m.tcp;
  internal_port = htons m.internal_port;
  external_port = htons m.external_port;
  external_address = external;
}

-- The result of `sendto` is compared as an unsigned word: -1 is 2^32 - 1. Gives whether the request
-- returns 0.
abbrev pub after_send : ℕ → State → State × Bool
unfolding gm_fail
after_send send_result s =
    if ltb send_result map_packet_size then (gm_fail Failure.send_returned s, false) else (s, true)

unfoldable pub request_mapping_ipv4 : Mapping → ℕ → ℕ → State → State × Bool
unfolding after_send
request_mapping_ipv4 m send_result now s = after_send send_result (record s {
  last_request_ipv4 = record {
    address = inet (htons pcp_port) s.router4;
    packet = request_packet (zeroes_ffff ++ s.address4) (zeroes_ffff ++ replicate 4 0) m;
    time = now;
    valid = true;
  };
})

unfoldable pub request_mapping_ipv6 : Mapping → ℕ → ℕ → State → State × Bool
unfolding after_send
request_mapping_ipv6 m send_result now s = after_send send_result (record s {
  last_request_ipv6 = record {
    address = inet6 (htons pcp_port) s.router6;
    packet = request_packet s.link_local6 (replicate 16 0) m;
    time = now;
    valid = true;
  };
})

-- The mapping that the public requests ask for, with the random nonce.
abbrev pub wanted : Bool → Bytes → Mapping
wanted ipv6 nonce = record {
  granted_time = 0;
  nonce = nonce;
  epoch = 0;
  lifetime = 24 * 60 * 60;
  internal_port = 8080;
  external_port = 8080;
  external_address = replicate 16 0;
  ipv6 = ipv6;
  tcp = true;
}

unfoldable pub gm_port_control_protocol_request_mapping_ipv4 : Bytes → ℕ → ℕ → State → State × Bool
unfolding request_mapping_ipv4
gm_port_control_protocol_request_mapping_ipv4 nonce send_result now s =
    request_mapping_ipv4 (wanted false nonce) send_result now s

unfoldable pub gm_port_control_protocol_request_mapping_ipv6 : Bytes → ℕ → ℕ → State → State × Bool
unfolding request_mapping_ipv6
gm_port_control_protocol_request_mapping_ipv6 nonce send_result now s =
    request_mapping_ipv6 (wanted true nonce) send_result now s

-- The epoch is copied as it stands in the packet.
abbrev pub epoch_of : Bytes → ℕ
epoch_of b = get_or b 0 0 + get_or b 1 0 * 2 ^ 8 + get_or b 2 0 * 2 ^ 16 + get_or b 3 0 * 2 ^ 24

abbrev pub mapping_of : Packet → Bool → ℕ → Mapping
mapping_of p ipv6 now = record {
  granted_time = now;
  nonce = p.nonce;
  epoch = epoch_of p.shared;
  lifetime = htonl p.lifetime;
  internal_port = htons p.internal_port;
  external_port = htons p.external_port;
  external_address = p.external_address;
  ipv6 = ipv6;
  tcp = p.protocol == 6;
}

abbrev pub add_mapping : Mapping → Bool → State → State
add_mapping m false s = record s { port_mappings4 = s.port_mappings4 ++ m ∷ [] }
add_mapping m true s = record s { port_mappings6 = s.port_mappings6 ++ m ∷ [] }

-- The checks of a response against the last request, and the mapping that it grants. The memory for
-- it is taken to be there.
unfoldable pub grant : LastRequest → Packet → Bool → ℕ → State → State
unfolding memcmp_less gm_fail
grant last p ipv6 now s =
    if memcmp_less p.nonce last.packet.nonce
    then gm_fail Failure.nonce_differs s
    else if not (p.result_code == 0)
    then gm_fail Failure.result_code s
    else if not (p.opcode == bit_or last.packet.opcode 0x80)
    then gm_fail Failure.opcode s
    else add_mapping (mapping_of p ipv6 now) ipv6 s

-- `is_global` is what `esp_netif_ip6_get_addr_type` says of an address.
module _ (is_global : Bytes → Bool) where
  unfoldable pub decode_pcp_map : Packet → Sender → ℕ → State → State
  unfolding grant
  decode_pcp_map p (inet port a) now s = grant s.last_request_ipv4 p false now s
  decode_pcp_map p (inet6 port a) now s =
      if is_global p.external_address then grant s.last_request_ipv6 p true now s else s
  decode_pcp_map p other_family now s = s

  -- The switch on the opcode; MAP and PEER differ only in the size and in what is done.
  unfoldable pub decode_opcode : Packet → ℕ → Bool → Sender → ℕ → State → State
  unfolding decode_pcp_map gm_fail
  decode_opcode p message_size multicast sender now s =
      if p.opcode % 128 == 0
      then s
      else if p.opcode % 128 == pcp_map
      then (if ltb (p.opcode % 256) 128
          then gm_fail Failure.received_request s
          else if multicast
          then gm_fail Failure.multicast_request s
          else if ltb message_size map_packet_size
          then gm_fail Failure.too_small s
          else decode_pcp_map p sender now s)
      else if p.opcode % 128 == 2
      then (if ltb (p.opcode % 256) 128
          then gm_fail Failure.received_request s
          else if multicast
          then gm_fail Failure.multicast_request s
          else if ltb message_size 80
          then gm_fail Failure.too_small s
          else s)
      else gm_fail Failure.unrecognized s

  -- Only an IPv4 packet has to come from the router.
  unfoldable pub decode_packet : Packet → ℕ → Bool → Sender → ℕ → State → State
  unfolding decode_opcode gm_fail str_eq
  decode_packet p message_size multicast (inet port a) now s =
      if not (htons port == pcp_port)
      then gm_fail Failure.not_the_port s
      else if not (str_eq a s.router4)
      then gm_fail Failure.not_the_router s
      else decode_opcode p message_size multicast (inet port a) now s
  decode_packet p message_size multicast (inet6 port a) now s =
      if not (htons port == pcp_port)
      then gm_fail Failure.not_the_port s
      else decode_opcode p message_size multicast (inet6 port a) now s
  decode_packet p message_size multicast other_family now s = gm_fail Failure.family s
