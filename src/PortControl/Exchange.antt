-- ===== src/PortControl/Exchange.antt =====
-- A request for a port mapping and the response of the router to it.
use rigcontrol.Common.{
  ℕ, ◌+◌, ◌^◌, ◌≤◌, ◌<◌, ◌≡◌, ◌∙◌, refl, ap, inl, inr, arith, Bool, true, false, [], ◌∷◌, ◌++◌,
  Bytes, ltb, ◌==◌, Bool-cases,
}
use rigcontrol.PortControl.{
  htons, htonl, memcmp_less, Packet, Mapping, inet, State, gm_fail, pcp_port, pcp_map,
  map_packet_size, protocol_of, request_packet, after_send, request_mapping_ipv4, mapping_of,
  add_mapping, decode_packet,
}
use rigcontrol.PortControl.Response.{Accepted, Grants, GrantsTo, decode_packet_cases}

htons_twice : (x : ℕ) → x < 2 ^ 16 → htons (htons x) ≡ x
htons_twice x h = omega arith

htonl_twice : (x : ℕ) → x < 2 ^ 32 → htonl (htonl x) ≡ x
htonl_twice x h = omega arith

memcmp_less-same : (b : Bytes) → memcmp_less b b ≡ false
unfolding memcmp_less
memcmp_less-same [] = refl
memcmp_less-same (x ∷ b) = ground (arith, memcmp_less-same b)

-- The router's response to a request: the same packet as a response, with the port, the address and
-- the lifetime that it grants.
abbrev pub response_to : Packet → ℕ → ℕ → Bytes → Bytes → Packet
response_to p external_port lifetime external_address shared = record p {
  opcode = p.opcode + 0x80;
  lifetime = htonl lifetime;
  shared = shared;
  external_port = htons external_port;
  external_address = external_address;
}

tcp_of_protocol : (tcp : Bool) → (protocol_of tcp == 6) ≡ tcp
tcp_of_protocol true = refl
tcp_of_protocol false = refl

module _ (is_global : Bytes → Bool) (later external_port lifetime message_size : ℕ)
    (external_address shared : Bytes) where
  abbrev answer : State → Packet
  answer s = response_to s.last_request_ipv4.packet external_port lifetime external_address shared

  -- The response to the last request, whatever else the state is.
  decode_packet-response_to :
      (s : State)
      → s.last_request_ipv4.packet.opcode ≡ pcp_map
      → s.last_request_ipv4.packet.result_code ≡ 0
      → map_packet_size ≤ message_size
      → decode_packet is_global
          (answer s)
          message_size
          false
          (inet (htons pcp_port) s.router4)
          later
          s
        ≡ add_mapping (mapping_of (answer s) false later) false s
  unfolding Accepted GrantsTo Grants
  decode_packet-response_to s op result size =
      elim (decode_packet_cases is_global (answer s) message_size false
        (inet (htons pcp_port) s.router4) later s) [
          | inl (a, e) ↦ e
          | inr (refuses, k) ↦ absurd (
              refuses (
                (refl, refl),
                (rw op refl, rw op (omega arith), refl, size),
                (memcmp_less-same s.last_request_ipv4.packet.nonce, result, rw op refl),
              ))
        ]

  -- What a mapping takes from the request, and what from the router.
  abbrev pub GrantedFor : Mapping → Mapping → Type 0
  GrantedFor m granted =
      (granted.nonce ≡ m.nonce)
      × (granted.internal_port ≡ m.internal_port)
      × (granted.external_port ≡ external_port)
      × (granted.lifetime ≡ lifetime)
      × (granted.external_address ≡ external_address)
      × (granted.tcp ≡ m.tcp)

  decode_packet-GrantedFor :
      (s : State) (m : Mapping) (client external : Bytes)
      → s.last_request_ipv4.packet ≡ request_packet client external m
      → m.internal_port < 2 ^ 16
      → external_port < 2 ^ 16
      → lifetime < 2 ^ 32
      → map_packet_size ≤ message_size
      → (granted : Mapping) × ((decode_packet is_global
            (answer s)
            message_size
            false
            (inet (htons pcp_port) s.router4)
            later
            s).port_mappings4
          ≡ s.port_mappings4 ++ granted ∷ [])
        × GrantedFor m granted
  decode_packet-GrantedFor s m client external e hi he hl hn = (
    mapping_of (answer s) false later,
    ap (λ t. t.port_mappings4)
        (decode_packet-response_to s (ap (λ p. p.opcode) e) (ap (λ p. p.result_code) e) hn),
    (
      ap (λ p. p.nonce) e,
      ap (λ p. htons p.internal_port) e ∙ htons_twice m.internal_port hi,
      htons_twice external_port he,
      htonl_twice lifetime hl,
      refl,
      ap (λ p. p.protocol == 6) e ∙ tcp_of_protocol m.tcp,
    ),
  )

-- Request and response over IPv4: whether or not the request is seen to be sent, the router's unicast
-- response to it adds one mapping, with the request's nonce, internal port and protocol, and the
-- external port, address and lifetime that the router grants; all in the range of their words.
pub decode_packet-request_mapping_ipv4 :
    (is_global : Bytes → Bool) (m : Mapping) (send_result now later : ℕ) (s : State)
    (external_port lifetime message_size : ℕ) (external_address shared : Bytes)
    → m.internal_port < 2 ^ 16
    → external_port < 2 ^ 16
    → lifetime < 2 ^ 32
    → map_packet_size ≤ message_size
    → (granted : Mapping) × ((decode_packet is_global
          (response_to
            ((request_mapping_ipv4 m send_result now s).0.last_request_ipv4.packet)
            external_port
            lifetime
            external_address
            shared)
          message_size
          false
          (inet (htons pcp_port) s.router4)
          later
          ((request_mapping_ipv4 m send_result now s).0)).port_mappings4
        ≡ s.port_mappings4 ++ granted ∷ [])
      × GrantedFor is_global later external_port lifetime message_size external_address shared m
          granted
unfolding request_mapping_ipv4 after_send gm_fail
decode_packet-request_mapping_ipv4 is_global m sent now later s ep lifetime n ea shared hi he hl
      hn =
    elim (Bool-cases (ltb sent map_packet_size)) [
      | inl e ↦ rw e (
          decode_packet-GrantedFor is_global later ep lifetime n ea shared _ m _ _ refl hi he hl hn)
      | inr e ↦ rw e (
          decode_packet-GrantedFor is_global later ep lifetime n ea shared _ m _ _ refl hi he hl hn)
    ]
