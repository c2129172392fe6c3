-- ===== src/Improv/Read/Line.antt =====
-- `improv_read` on a serial line: the packets it delivers, and those it does not.
use rigcontrol.Common.{
  ℕ, ◌+◌, ◌%◌, ◌^◌, ◌≡◌, ◌≢◌, refl, ◌∙◌, true, [], ◌∷◌, ◌++◌, Bytes, arith, length, All,
}
use rigcontrol.Improv.{add_all, covered, improv_send}
use rigcontrol.Improv.ImprovError.{no_error, invalid_rpc_packet}
use rigcontrol.Improv.Read.{Reader, more, returned, read_byte, read_loop, improv_read}
use rigcontrol.Improv.Read.Scan.{quiet, waiting}
use rigcontrol.Improv.Read.Frame.{IsPacket, Delivers, Rejects, accepts, rejects}

-- A frame with checksum byte `k`, and no three line ends together in it.
abbrev pub framed : Bytes → ℕ → ℕ → Bytes
framed payload type k = covered payload type (length payload) ++ k ∷ []

-- Noise that neither starts the magic word, nor ends a line, nor looks like a SLIP packet.
abbrev pub IsNoise : ℕ → Type 0
IsNoise c = (c ≢ b'I') × (c ≢ b'\r') × (c ≢ b'\n') × (c ≢ 0xc0)

read_loop-noise :
    (noise line buf : Bytes) (sum : ℕ)
    → All IsNoise noise
    → read_loop (waiting buf sum) (noise ++ line) ≡ read_loop (waiting buf sum) line
unfolding read_loop read_byte
read_loop-noise [] line buf sum h = refl
read_loop-noise (c ∷ noise) line buf sum ((i, r, n, s), h) =
    rw (skip, read_loop) (read_loop-noise noise line buf sum h)
  where
    skip : read_byte (waiting buf sum) c ≡ more (waiting buf sum)
    skip = ground arith

-- A packet that `improv_send` writes is read back whole: behind any bytes but the letter I, line ends
-- and 0xc0, `improv_read` returns no error, the packet's type and length, and its data in the caller's buffer, answers nothing, and
-- leaves the newline that follows the packet on the line; if the data fits a byte and the buffer,
-- and no three line ends come together in the packet.
pub improv_read-improv_send :
    (buf payload noise : Bytes) (type : ℕ)
    → IsPacket buf payload type
    → All IsNoise noise
    → quiet 0 (framed payload type (add_all 0 (covered payload type (length payload)) % 256)) ≡ true
    → (r : Reader) × (improv_read buf 0 (noise ++ improv_send payload type (length payload))
        ≡ returned no_error r (b'\n' ∷ []))
      × Delivers payload type r
unfolding improv_read improv_send
improv_read-improv_send buf payload noise type p n q =
    let cov = covered payload type (length payload) in
    let k = add_all 0 cov % 256 in
    let (r, e, d) = accepts buf payload (b'\n' ∷ []) type 0 k p q refl in
    (r, read_loop-noise noise (cov ++ k ∷ b'\n' ∷ []) buf 0 n ∙ e, d)

-- A packet with any other checksum byte, behind the same bytes, if no three line ends come together in
-- it with that byte, is refused: `improv_read` returns Invalid_RPC_Packet with
-- type 0 and length 0, answers with an error packet, and stops behind the checksum byte.
pub improv_read_bad_checksum :
    (buf payload noise line : Bytes) (type k : ℕ)
    → IsPacket buf payload type
    → All IsNoise noise
    → quiet 0 (framed payload type k) ≡ true
    → k ≢ add_all 0 (covered payload type (length payload)) % 256
    → (r : Reader) × (improv_read buf 0
          (noise ++ (covered payload type (length payload) ++ k ∷ line))
        ≡ returned invalid_rpc_packet r line)
      × Rejects r
unfolding improv_read
improv_read_bad_checksum buf payload noise line type k p n q ne =
    let (r, e, d) = rejects buf payload line type 0 k p q ne in
    (r, read_loop-noise noise (covered payload type (length payload) ++ k ∷ line) buf 0 n ∙ e, d)

total : Bytes → ℕ
total [] = 0
total (c ∷ cs) = c + total cs

add_all-total : (sum : ℕ) (cs : Bytes) → add_all sum cs % 256 ≡ (sum + total cs) % 256
unfolding total
add_all-total sum [] = omega arith
add_all-total sum (c ∷ cs) = omega (arith, add_all-total ((sum + c) % 2 ^ 32) cs)

-- The sum is not reset when the magic word breaks off: a stray `I` that anything but the next
-- letter follows makes `improv_read` refuse the correct packet behind it, for its checksum.
pub improv_read_false_start :
    (buf payload : Bytes) (type x : ℕ)
    → IsPacket buf payload type
    → IsNoise x
    → x ≢ b'M'
    → quiet 0 (framed payload type (add_all 0 (covered payload type (length payload)) % 256)) ≡ true
    → (r : Reader) × (improv_read buf 0 (b'I' ∷ x ∷ improv_send payload type (length payload))
        ≡ returned invalid_rpc_packet r (b'\n' ∷ []))
      × Rejects r
unfolding improv_read improv_send read_loop read_byte
improv_read_false_start buf payload type x p (i, r, n, s) m q =
    let cov = covered payload type (length payload) in
    let k = add_all 0 cov % 256 in
    let (reader, e, d) =
      rejects buf payload (b'\n' ∷ []) type 73 k p q
        (omega (arith, add_all-total 73 cov, add_all-total 0 cov)) in
    (reader, rw (skip, read_loop) e, d)
  where
    skip : read_byte (record (waiting buf 73) { index = 1 }) x ≡ more (waiting buf 73)
    skip = ground arith
