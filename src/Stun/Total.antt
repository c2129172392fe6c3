-- ===== src/Stun/Total.antt =====
-- The loop over the attributes ends on every packet.
use rigcontrol.Common.{
  ℕ, zero, suc, ◌+◌, ◌-◌, ◌≤◌, ◌<◌, ◌≢◌, inl, inr, arith, true, false, ltb, ◌==◌, Bool-cases,
}
use rigcontrol.Stun.{
  Memory, Address, Found, found, Outcome, out_of_fuel, error_code, increment, ntohs_at, conclude,
  give_up, pass, attribute_loop, process_received_packet,
}

give_up_total : (f : Found) → give_up f ≢ out_of_fuel
give_up_total (found got_xor got_an held) h = cc

conclude_total : (f : Found) → conclude f ≢ out_of_fuel
conclude_total (found got_xor true held) h = cc
conclude_total (found got_xor false held) h = cc

pass_total :
    (memory : Memory) (loop : ℕ → ℕ → Found → Outcome) (a n : ℕ) (f : Found)
    → ((b m : ℕ) (g : Found) → m ≤ n → loop b m g ≢ out_of_fuel)
    → pass memory loop a (suc n) f ≢ out_of_fuel
unfolding pass
pass_total memory loop a n f ends h = elim (Bool-cases (ntohs_at memory a == error_code)) [
  | inl e ↦ give_up_total f (rw e at h)
  | inr e ↦ elim (Bool-cases (ltb (suc n) (increment (ntohs_at memory (a + 2))))) [
    | inl k ↦ give_up_total _ (rw (e, k) at h)
    | inr k ↦ ends _ _ _ (ground arith) (rw (e, k) at h)
  ]
]

attribute_loop_total :
    (memory : Memory) (fuel a size : ℕ) (f : Found)
    → size < fuel
    → attribute_loop memory fuel a size f ≢ out_of_fuel
unfolding attribute_loop
attribute_loop_total memory zero a size f less = absurd (omega (arith, less))
attribute_loop_total memory (suc fuel) a zero f less = conclude_total f
attribute_loop_total memory (suc fuel) a (suc n) f less =
    pass_total memory (attribute_loop memory fuel) a n f
      (λ b m g le. attribute_loop_total memory fuel b m g (omega (arith, le, less)))

-- process_received_packet returns on every packet, whatever its bytes and its length field.
pub process_received_packet_total :
    (memory : Memory) (attribute_size receive_result : ℕ) (before : Address)
    → process_received_packet memory attribute_size receive_result before ≢ out_of_fuel
unfolding process_received_packet
process_received_packet_total memory n received before h =
    elim (Bool-cases (ltb n (received - 20))) [
      | inl e ↦ give_up_total (found false false before) (rw e at h)
      | inr e ↦ attribute_loop_total memory (n + 1) 0 n _ (omega arith) (rw e at h)
    ]
