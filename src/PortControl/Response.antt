-- ===== src/PortControl/Response.antt =====
-- Which responses add a mapping, and the response to a request.
use rigcontrol.Common.{
  ℕ, ◌%◌, ◌≤◌, ◌≡◌, ◌⊎◌, ◌∙◌, refl, inl, inr, arith, Bool, true, false, Bytes, ltb, ◌==◌, ==_iff,
  bit_or, str_eq, str_eq_iff, Bool-cases,
}
use rigcontrol.PortControl.{
  htons, memcmp_less, Packet, Sender, inet, inet6, other_family, LastRequest, State, gm_fail,
  pcp_port, pcp_map, map_packet_size, mapping_of, add_mapping, grant, decode_pcp_map, decode_opcode,
  decode_packet,
}

-- The mappings are as they were.
abbrev pub Keeps : State → State → Type 0
Keeps s s' = (s'.port_mappings4 ≡ s.port_mappings4) × (s'.port_mappings6 ≡ s.port_mappings6)

-- What a response has to be to grant a mapping, against the last request.
unfoldable pub Grants : LastRequest → Packet → Type 0
unfolding memcmp_less
Grants last p =
    (memcmp_less p.nonce last.packet.nonce ≡ false)
    × (p.result_code ≡ 0)
    × (p.opcode ≡ bit_or last.packet.opcode 0x80)

grant_cases :
    (last : LastRequest) (p : Packet) (ipv6 : Bool) (now : ℕ) (s : State)
    → (Grants last p × (grant last p ipv6 now s ≡ add_mapping (mapping_of p ipv6 now) ipv6 s))
      ⊎ (¬ Grants last p × Keeps s (grant last p ipv6 now s))
unfolding grant gm_fail Grants
grant_cases last p ipv6 now s = elim (Bool-cases (memcmp_less p.nonce last.packet.nonce)) [
  | inl e ↦ inr ((λ g. cc), rw e (refl, refl))
  | inr e ↦ elim (Bool-cases (p.result_code == 0)) [
    | inr k ↦ inr ((λ g. ground (arith, k, g)), rw (e, k) (refl, refl))
    | inl k ↦ elim (Bool-cases (p.opcode == bit_or last.packet.opcode 0x80)) [
      | inr j ↦ inr ((λ g. ground (arith, j, g)), rw (e, k, j) (refl, refl))
      | inl j ↦ inl ((e, (==_iff _ _).0 k, (==_iff _ _).0 j), rw (e, k, j) refl)
    ]
  ]
]

-- A unicast response to a MAP request of full size.
abbrev pub IsMapResponse : Packet → ℕ → Bool → Type 0
IsMapResponse p message_size multicast =
    (p.opcode % 128 ≡ pcp_map)
    × (128 ≤ p.opcode % 256)
    × (multicast ≡ false)
    × (map_packet_size ≤ message_size)

module _ (is_global : Bytes → Bool) where
  -- The last request of the sender's address family is granted; over IPv6 only a global address.
  unfoldable pub GrantsTo : Sender → State → Packet → Type 0
  unfolding Grants
  GrantsTo (inet port a) s p = Grants s.last_request_ipv4 p
  GrantsTo (inet6 port a) s p = (is_global p.external_address ≡ true) × Grants s.last_request_ipv6 p
  GrantsTo other_family s p = ⊥

  abbrev pub is_ipv6 : Sender → Bool
  is_ipv6 (inet6 port a) = true
  is_ipv6 _ = false

  -- The packet comes from port 5351, over IPv4 of the router.
  abbrev pub ComesFrom : Sender → State → Type 0
  ComesFrom (inet port a) s = (htons port ≡ pcp_port) × (a ≡ s.router4)
  ComesFrom (inet6 port a) s = htons port ≡ pcp_port
  ComesFrom other_family s = ⊥

  decode_pcp_map_cases :
      (p : Packet) (sender : Sender) (now : ℕ) (s : State)
      → (GrantsTo sender s p
          × (decode_pcp_map is_global p sender now s
              ≡ add_mapping (mapping_of p (is_ipv6 sender) now) (is_ipv6 sender) s))
        ⊎ (¬ GrantsTo sender s p × Keeps s (decode_pcp_map is_global p sender now s))
  unfolding decode_pcp_map GrantsTo Grants
  decode_pcp_map_cases p (inet port a) now s = grant_cases s.last_request_ipv4 p false now s
  decode_pcp_map_cases p (inet6 port a) now s = elim (Bool-cases (is_global p.external_address)) [
    | inr e ↦ inr ((λ g. cc), rw e (refl, refl))
    | inl e ↦ elim (grant_cases s.last_request_ipv6 p true now s) [
      | inl (g, k) ↦ inl ((e, g), rw e k)
      | inr (n, k) ↦ inr ((λ g. n (g.1)), rw e k)
    ]
  ]
  decode_pcp_map_cases p other_family now s = inr ((λ g. g), (refl, refl))

  decode_opcode_cases :
      (p : Packet) (message_size : ℕ) (multicast : Bool) (sender : Sender) (now : ℕ) (s : State)
      → (IsMapResponse p message_size multicast
          × (decode_opcode is_global p message_size multicast sender now s
              ≡ decode_pcp_map is_global p sender now s))
        ⊎ (¬ IsMapResponse p message_size multicast
            × Keeps s (decode_opcode is_global p message_size multicast sender now s))
  unfolding decode_opcode gm_fail
  decode_opcode_cases p n multicast sender now s = elim (Bool-cases (p.opcode % 128 == pcp_map)) [
    | inl e ↦ elim (Bool-cases (ltb (p.opcode % 256) 128)) [
      | inl k ↦ inr ((λ g. ground (arith, k, g)), ground (arith, e, k))
      | inr k ↦ elim (Bool-cases multicast) [
        | inl m ↦ inr ((λ g. cc), ground (arith, e, k, m))
        | inr m ↦ elim (Bool-cases (ltb n map_packet_size)) [
          | inl j ↦ inr ((λ g. ground (arith, j, g)), ground (arith, e, k, m, j))
          | inr j ↦ inl ((ground arith, ground arith, m, ground arith), ground (arith, e, k, m, j))
        ]
      ]
    ]
    | inr e ↦ inr ((λ g. ground (arith, e, g)), ground (arith, e))
  ]

  unfoldable pub Accepted : Packet → ℕ → Bool → Sender → State → Type 0
  unfolding GrantsTo
  Accepted p message_size multicast sender s =
      ComesFrom sender s × IsMapResponse p message_size multicast × GrantsTo sender s p

  -- Once the sender is right, the opcode and the last request decide.
  decode_opcode-Accepted :
      (p : Packet) (message_size : ℕ) (multicast : Bool) (sender : Sender) (now : ℕ) (s : State)
      → ComesFrom sender s
      → (Accepted p message_size multicast sender s
          × (decode_opcode is_global p message_size multicast sender now s
              ≡ add_mapping (mapping_of p (is_ipv6 sender) now) (is_ipv6 sender) s))
        ⊎ (¬ Accepted p message_size multicast sender s
            × Keeps s (decode_opcode is_global p message_size multicast sender now s))
  unfolding Accepted
  decode_opcode-Accepted p n multicast sender now s from =
      elim (decode_opcode_cases p n multicast sender now s) [
        | inr (refuses, k) ↦ inr ((λ a. refuses (a.1)), k)
        | inl (is, k) ↦ elim (decode_pcp_map_cases p sender now s) [
          | inl (g, e) ↦ inl ((from, is, g), k ∙ e)
          | inr (refuses, e) ↦ inr ((λ a. refuses (a.2)), rw k e)
        ]
      ]

  -- A packet adds exactly the mapping that it grants if it is a full, unicast MAP response from port
  -- 5351 (over IPv4 of the router; over IPv6 with a global address) with the result 0, the opcode of
  -- the last request's response and a nonce that memcmp does not put below the last request's; any
  -- other packet leaves the mappings as they are.
  pub decode_packet_cases :
      (p : Packet) (message_size : ℕ) (multicast : Bool) (sender : Sender) (now : ℕ) (s : State)
      → (Accepted p message_size multicast sender s
          × (decode_packet is_global p message_size multicast sender now s
              ≡ add_mapping (mapping_of p (is_ipv6 sender) now) (is_ipv6 sender) s))
        ⊎ (¬ Accepted p message_size multicast sender s
            × Keeps s (decode_packet is_global p message_size multicast sender now s))
  unfolding decode_packet gm_fail Accepted
  decode_packet_cases p n multicast (inet port a) now s =
      elim (Bool-cases (htons port == pcp_port)) [
        | inr e ↦ inr ((λ g. ground (arith, e, g.0)), rw e (refl, refl))
        | inl e ↦ elim (Bool-cases (str_eq a s.router4)) [
          | inr k ↦ inr ((λ g. cc (k, (str_eq_iff _ _).1 (g.0.1))), rw (e, k) (refl, refl))
          | inl k ↦
              rw (e, k)
                (decode_opcode-Accepted p n multicast (inet port a) now s
                  ((==_iff _ _).0 e, (str_eq_iff _ _).0 k))
        ]
      ]
  decode_packet_cases p n multicast (inet6 port a) now s =
      elim (Bool-cases (htons port == pcp_port)) [
        | inr e ↦ inr ((λ g. ground (arith, e, g.0)), rw e (refl, refl))
        | inl e ↦
            rw e (decode_opcode-Accepted p n multicast (inet6 port a) now s ((==_iff _ _).0 e))
      ]
  decode_packet_cases p n multicast other_family now s = inr ((λ g. g.0), (refl, refl))
