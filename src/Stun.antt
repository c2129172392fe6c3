-- ===== src/Stun.antt =====
-- components/generic_main/stun.c: decoding a STUN response, and the run of requests that asks a
-- public server for this device's address.
pub mod Answer
pub mod Attributes
pub mod Run
pub mod Report
pub mod Retries
pub mod Total
pub mod Servers
mod Tests
use rigcontrol.Common.{
  ℕ, zero, suc, ◌+◌, ◌-◌, ◌*◌, ◌%◌, ◌^◌, Bool, true, false, Option, none, some, ltb, ◌==◌,
  if◌then◌else◌, bit_xor,
}

-- The bytes from the first attribute on. Reads behind what was received are reads of memory.
abbrev pub Memory : Type 0
Memory = ℕ → ℕ

-- `ntohs` of the two bytes at an offset.
abbrev pub ntohs_at : Memory → ℕ → ℕ
ntohs_at memory at = memory at % 256 * 256 + memory (at + 1) % 256

-- The two and the four bytes at an offset as the little-endian processor reads them.
abbrev pub u16_at : Memory → ℕ → ℕ
u16_at memory at = memory at % 256 + memory (at + 1) % 256 * 256

abbrev pub u32_at : Memory → ℕ → ℕ
u32_at memory at = u16_at memory at + u16_at memory (at + 2) * 2 ^ 16

abbrev pub stun_magic : ℕ
stun_magic = 0x42a41221

-- `struct sockaddr`: port and address as they are stored, in network byte order.
pub data Address : Type 0 where
  in4 : ℕ → ℕ → Address
  in6 : ℕ → ℕ → ℕ → ℕ → ℕ → Address
  unset : Address

-- The attribute types that the program tells apart.
abbrev pub mapped_address : ℕ
mapped_address = 1

abbrev pub error_code : ℕ
error_code = 9

abbrev pub xor_mapped_address : ℕ
xor_mapped_address = 0x20

-- An attribute at `a` has its family at 5, its port at 6 and its address at 8.
abbrev pub decode_mapped_address : Memory → ℕ → Address
decode_mapped_address memory a =
    if memory (a + 5) % 256 == 1
    then in4 (u16_at memory (a + 6)) (u32_at memory (a + 8))
    else in6 (u16_at memory (a + 6)) (u32_at memory (a + 8)) (u32_at memory (a + 12))
        (u32_at memory (a + 16)) (u32_at memory (a + 20))

-- For IPv6 the port stays 0 and every word is combined with the magic number.
abbrev pub decode_xor_mapped_address : Memory → ℕ → Address
decode_xor_mapped_address memory a =
    if memory (a + 5) % 256 == 1
    then in4 (bit_xor (u16_at memory (a + 6)) 0x42a4) (bit_xor (u32_at memory (a + 8)) stun_magic)
    else in6 0 (bit_xor (u32_at memory (a + 8)) stun_magic)
        (bit_xor (u32_at memory (a + 12)) stun_magic) (bit_xor (u32_at memory (a + 16)) stun_magic)
        (bit_xor (u32_at memory (a + 20)) stun_magic)

-- The locals of the loop: `got_xor_mapped_address`, `got_an_address`, and what `address` holds.
pub data Found : Type 0 where
  found : Bool → Bool → Address → Found

-- The switch, but for `ERROR_CODE`: all types that are not named only print or do nothing.
pub take_attribute : Memory → ℕ → ℕ → Found → Found
take_attribute memory a type (found got_xor got_an address) =
    if type == mapped_address
    then (if got_xor
        then found got_xor got_an address
        else found got_xor true (decode_mapped_address memory a))
    else if type == xor_mapped_address
    then found true true (decode_xor_mapped_address memory a)
    else found got_xor got_an address

-- 0 or -1, with what the function leaves in `address`.
pub data Outcome : Type 0 where
  accepted : Address → Outcome
  refused : Address → Outcome
  out_of_fuel : Outcome

-- The value's length and the four bytes before it, padded to 32 bits.
abbrev pub increment : ℕ → ℕ
increment length = if length % 4 == 0 then length + 4 else length + 4 + (4 - length % 4)

abbrev pub conclude : Found → Outcome
conclude (found got_xor true address) = accepted address
conclude (found got_xor false address) = refused address

abbrev pub give_up : Found → Outcome
give_up (found got_xor got_an address) = refused address

-- One pass of the loop; `loop` is the next one.
pub pass : Memory → (ℕ → ℕ → Found → Outcome) → ℕ → ℕ → Found → Outcome
unfolding take_attribute
pass memory loop a attribute_size f =
    let type = ntohs_at memory a in
    let step = increment (ntohs_at memory (a + 2)) in
    let seen = take_attribute memory a type f in
    let rest = loop (a + step) (attribute_size - step) seen in
    if type == error_code then give_up f else if ltb attribute_size step then give_up seen else rest

pub attribute_loop : Memory → ℕ → ℕ → ℕ → Found → Outcome
attribute_loop memory zero a attribute_size f = out_of_fuel
attribute_loop memory (suc fuel) a zero f = conclude f
attribute_loop memory (suc fuel) a (suc n) f = pass memory (attribute_loop memory fuel) a (suc n) f

-- `attribute_size` is `ntohs(receive_packet->length)`. Every pass takes four bytes off at least.
pub process_received_packet : Memory → ℕ → ℕ → Address → Outcome
unfolding attribute_loop pass
process_received_packet memory attribute_size receive_result address =
    if ltb attribute_size (receive_result - 20)
    then refused address
    else attribute_loop memory (attribute_size + 1) 0 attribute_size (found false false address)
