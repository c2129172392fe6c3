-- ===== src/Stun/Attributes.antt =====
-- What a response says, apart from the loop that reads it.
use rigcontrol.Common.{
  ℕ, zero, suc, ◌+◌, ◌-◌, ◌%◌, ◌≤◌, ◌<◌, ◌≡◌, ◌≢◌, ◌↔◌, ◌∙◌, refl, sym, ap, inl, inr, arith, true,
  false, some, List, [], ◌∷◌, ltb, ltb→lt, ==_iff, ◌==◌, Bool-cases, Option-cases, bit_xor,
}
use rigcontrol.Common.Bits.{bit_xor_cancel}
use rigcontrol.Stun.{
  Memory, ntohs_at, u16_at, u32_at, stun_magic, Address, in4, mapped_address, error_code,
  xor_mapped_address, decode_xor_mapped_address, Found, found, take_attribute, Outcome, accepted,
  increment, conclude, give_up, pass, attribute_loop, process_received_packet,
}
use rigcontrol.Stun.Answer.{
  Chain, last_of, answer, read_all, given, read_all_mapped, xor_answer, mapped_answer,
}

give_up_refuses : (f : Found) (address : Address) → give_up f ≢ accepted address
give_up_refuses (found got_xor got_an held) address h = cc

conclude_iff :
    (f : Found) (address : Address) → (conclude f ≡ accepted address) ↔ (given f ≡ some address)
conclude_iff (found got_xor true held) address = ground arith
conclude_iff (found got_xor false held) address = ground arith

four_le_increment : (length : ℕ) → 4 ≤ increment length
four_le_increment length = ground arith

module _ (memory : Memory) where
  Read : ℕ → ℕ → Found → Address → Type 0
  Read a size f address =
      (l : List (ℕ × ℕ)) × Chain memory a size l
      × (conclude (read_all memory l f) ≡ accepted address)

  -- A pass gets on to the next one if the attribute is no error code and ends in time.
  Goes : (ℕ → ℕ → Found → Outcome) → ℕ → ℕ → Found → Address → Type 0
  Goes loop a size f address =
      (ntohs_at memory a ≢ error_code)
      × (increment (ntohs_at memory (a + 2)) ≤ size)
      × (loop (a + increment (ntohs_at memory (a + 2))) (size - increment (ntohs_at memory (a + 2)))
            (take_attribute memory a (ntohs_at memory a) f)
          ≡ accepted address)

  pass-Goes :
      (loop : ℕ → ℕ → Found → Outcome) (a size : ℕ) (f : Found) (address : Address)
      → pass memory loop a size f ≡ accepted address
      → Goes loop a size f address
  unfolding pass Goes
  pass-Goes loop a size f address h = elim (Bool-cases (ntohs_at memory a == error_code)) [
    | inl e ↦ absurd (give_up_refuses f address (rw e at h))
    | inr e ↦ elim (Bool-cases (ltb size (increment (ntohs_at memory (a + 2))))) [
      | inl k ↦ absurd (give_up_refuses _ address (rw (e, k) at h))
      | inr k ↦ ((λ x. ground (arith, x, e)), ground (arith, k), rw (e, k) at h)
    ]
  ]

  Goes-pass :
      (loop : ℕ → ℕ → Found → Outcome) (a size : ℕ) (f : Found) (address : Address)
      → Goes loop a size f address
      → pass memory loop a size f ≡ accepted address
  unfolding pass Goes
  Goes-pass loop a size f address (ne, le, h) =
      elim (Bool-cases (ntohs_at memory a == error_code)) [
        | inl e ↦ absurd (ne ((==_iff _ _).0 e))
        | inr e ↦ elim (Bool-cases (ltb size (increment (ntohs_at memory (a + 2))))) [
          | inl k ↦ absurd (omega (arith, le, ltb→lt _ _ k))
          | inr k ↦ rw (e, k) h
        ]
      ]

  attribute_loop-Chain :
      (fuel a size : ℕ) (f : Found) (address : Address)
      → attribute_loop memory fuel a size f ≡ accepted address
      → (l : List (ℕ × ℕ)) × Chain memory a size l
        × (conclude (read_all memory l f) ≡ accepted address)
  unfolding attribute_loop Goes read_all
  attribute_loop-Chain zero a size f address h = cc
  attribute_loop-Chain (suc fuel) a zero f address h = ([], refl, h)
  attribute_loop-Chain (suc fuel) a (suc n) f address h =
      let goes = pass-Goes (attribute_loop memory fuel) a (suc n) f address h in
      let rest = attribute_loop-Chain fuel _ _ _ address (goes.2) in
      ((ntohs_at memory a, a) ∷ rest.0, (refl, refl, goes.0, omega arith, goes.1, rest.1), rest.2)

  Chain-attribute_loop :
      (fuel a size : ℕ) (f : Found) (address : Address) (l : List (ℕ × ℕ))
      → size < fuel
      → Chain memory a size l
      → conclude (read_all memory l f) ≡ accepted address
      → attribute_loop memory fuel a size f ≡ accepted address
  unfolding attribute_loop Goes read_all
  Chain-attribute_loop zero a size f address l less c h = absurd (omega (arith, less))
  Chain-attribute_loop (suc fuel) a zero f address [] less c h = h
  Chain-attribute_loop (suc fuel) a zero f address ((t, q) ∷ l) less c h =
      absurd (omega (arith, c.3))
  Chain-attribute_loop (suc fuel) a (suc n) f address [] less c h = absurd (omega (arith, c))
  Chain-attribute_loop (suc fuel) a (suc n) f address ((t, q) ∷ l) less (et, eq, ne, pos, le, c) h =
      Goes-pass (attribute_loop memory fuel) a (suc n) f address (
        rw (sym et) ne,
        le,
        Chain-attribute_loop fuel _ _ _ address l
            (omega (arith, four_le_increment (ntohs_at memory (a + 2)))) c (rw (et, eq) at h),
      )

  read_all-answer :
      (l : List (ℕ × ℕ)) (before : Address)
      → given (read_all memory l (found false false before)) ≡ answer memory l
  unfolding answer last_of xor_answer mapped_answer
  read_all-answer l before =
      let e = read_all_mapped memory l false before in
      elim (Option-cases (last_of xor_mapped_address l)) [
        | inl k ↦ elim (Option-cases (last_of mapped_address l)) [
          | inl j ↦ ground (arith, e, k, j)
          | inr (q, j) ↦ ground (arith, e, k, j)
        ]
        | inr (q, k) ↦ ground (arith, e, k)
      ]

  -- The length field covers what was received, and the attributes fill it and answer an address.
  abbrev pub Answers : ℕ → ℕ → Address → Type 0
  Answers attribute_size receive_result address =
      (receive_result - 20 ≤ attribute_size)
      × ((l : List (ℕ × ℕ)) × Chain memory 0 attribute_size l × (answer memory l ≡ some address))

  -- process_received_packet returns 0 with an address exactly if the length field covers what was
  -- received, the attributes fill that length with no error code among them, and the address is the
  -- one that they answer: the last exclusive-or address, or else the last plain one.
  pub process_received_packet_iff :
      (attribute_size receive_result : ℕ) (before address : Address)
      → (process_received_packet memory attribute_size receive_result before ≡ accepted address)
        ↔ Answers attribute_size receive_result address
  unfolding process_received_packet
  process_received_packet_iff n received before address = (forward, back)
    where
      forward :
          process_received_packet memory n received before ≡ accepted address
          → Answers n received address
      forward h = elim (Bool-cases (ltb n (received - 20))) [
        | inl e ↦ absurd (give_up_refuses (found false false before) address (rw e at h))
        | inr e ↦
            let all =
              attribute_loop-Chain (n + 1) 0 n (found false false before) address (rw e at h) in
            (
              ground (arith, e),
              (
                all.0,
                all.1,
                sym (read_all-answer (all.0) before) ∙ (conclude_iff _ address).0 (all.2),
              ),
            )
      ]

      back :
          Answers n received address
          → process_received_packet memory n received before ≡ accepted address
      back (covers, (l, c, h)) = elim (Bool-cases (ltb n (received - 20))) [
        | inl e ↦ absurd (omega (arith, covers, ltb→lt _ _ e))
        | inr e ↦ rw e (
            Chain-attribute_loop (n + 1) 0 n (found false false before) address l (omega arith) c
              ((conclude_iff _ address).1 (read_all-answer l before ∙ h)))
      ]

  answer_xor :
      (l : List (ℕ × ℕ)) (place : ℕ)
      → last_of xor_mapped_address l ≡ some place
      → answer memory l ≡ some (decode_xor_mapped_address memory place)
  unfolding answer last_of
  answer_xor l place e = ground (arith, e)

  decode_xor_in4 :
      (place port addr : ℕ)
      → memory (place + 5) % 256 ≡ 1
      → bit_xor (u16_at memory (place + 6)) 0x42a4 ≡ port
      → bit_xor (u32_at memory (place + 8)) stun_magic ≡ addr
      → decode_xor_mapped_address memory place ≡ in4 port addr
  decode_xor_in4 place port addr family p a = ground (arith, family, p, a)

  -- The server combines the port with the first half of the cookie 0x2112a442 and the address with
  -- the whole of it, in network byte order, which is 0x1221 and 0x42a41221 as the device reads them.
  -- A response whose last exclusive-or attribute is of this kind for IPv4 is accepted with the
  -- server's address, but the port is combined with the other half of the cookie.
  pub process_received_packet-xor :
      (attribute_size receive_result : ℕ) (before : Address) (l : List (ℕ × ℕ))
      (place port addr : ℕ)
      → receive_result - 20 ≤ attribute_size
      → Chain memory 0 attribute_size l
      → last_of xor_mapped_address l ≡ some place
      → memory (place + 5) % 256 ≡ 1
      → u16_at memory (place + 6) ≡ bit_xor port 0x1221
      → u32_at memory (place + 8) ≡ bit_xor addr 0x42a41221
      → process_received_packet memory attribute_size receive_result before
        ≡ accepted (in4 (bit_xor (bit_xor port 0x1221) 0x42a4) addr)
  unfolding answer last_of
  process_received_packet-xor n received before l place port addr covers c last family p a =
      (process_received_packet_iff n received before (in4 decoded_port addr)).1
        (covers, (l, c, decoded))
    where
      decoded_port : ℕ
      decoded_port = bit_xor (bit_xor port 0x1221) 0x42a4

      addresses : bit_xor (u32_at memory (place + 8)) stun_magic ≡ addr
      addresses = ap (λ x. bit_xor x stun_magic) a ∙ bit_xor_cancel addr stun_magic

      decoded : answer memory l ≡ some (in4 decoded_port addr)
      decoded =
          answer_xor l place last
          ∙ ap some (
              decode_xor_in4 place decoded_port addr family (ap (λ x. bit_xor x 0x42a4) p)
                addresses)
