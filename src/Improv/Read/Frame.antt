-- ===== src/Improv/Read/Frame.antt =====
-- What `improv_read` makes of the frames that `improv_send` writes.
use rigcontrol.Common.{
  ℕ, ◌+◌, ◌%◌, ◌^◌, ◌≤◌, ◌<◌, ◌≡◌, ◌≢◌, refl, sym, ap, ◌∙◌, true, false, not, ◌&&◌, [], ◌∷◌, ◌++◌,
  Bytes, arith, leb, ◌==◌, ==_iff, if◌then◌else◌, length, take,
}
use rigcontrol.Improv.{magic, improv_version, add_all, covered, improv_send_error}
use rigcontrol.Improv.ImprovError.{no_error, invalid_rpc_packet}
use rigcontrol.Improv.Read.{Reader, returns, returned, is_enter, next_count, read_byte, read_loop}
use rigcontrol.Improv.Read.Scan.{
  quiet, absorb, absorb_all, read_loop-payload, index-absorb_all, sum-absorb_all, length-absorb_all,
  type-absorb_all, sent-absorb_all, payload-absorb_all, take-write_at, read_loop-header,
  enter_count-absorb_all, waiting, after_header,
}

take-length_self : (cs : Bytes) → take (length cs) cs ≡ cs
take-length_self [] = refl
take-length_self (c ∷ cs) = ap (◌∷◌ c) (take-length_self cs)

add_all-append : (sum : ℕ) (xs ys : Bytes) → add_all sum (xs ++ ys) ≡ add_all (add_all sum xs) ys
add_all-append sum [] ys = refl
add_all-append sum (x ∷ xs) ys = add_all-append ((sum + x) % 2 ^ 32) xs ys

nothing-absorb_all :
    (cs : Bytes) (r : Reader)
    → ((absorb_all r cs).r_type ≡ r.r_type) × ((absorb_all r cs).r_length ≡ r.r_length)
nothing-absorb_all [] r = (refl, refl)
nothing-absorb_all (c ∷ cs) r = nothing-absorb_all cs (absorb r c)

-- A packet's data as `improv_read` is to return it: what fits the caller's buffer and the type.
pub record IsPacket (buf payload : Bytes) (type : ℕ) : Type 0 where
  pub type_byte : type < 256
  pub length_byte : length payload < 256
  pub room : length payload ≤ length buf

module _ (buf cs : Bytes) (type sum : ℕ) (p : IsPacket buf cs type) where
  -- the reader before the checksum byte
  before_checksum : Reader
  before_checksum = absorb_all (after_header buf sum type (length cs)) cs

  covered-eq : covered cs type (length cs) ≡ magic ++ improv_version ∷ type ∷ length cs ∷ cs
  covered-eq =
      let t : type % 256 ≡ type = omega (arith, p.type_byte) in
      let l : length cs % 256 ≡ length cs = omega (arith, p.length_byte) in
      rw (take-length_self cs, t, l)

  sum-before_checksum : before_checksum.sum ≡ add_all sum (covered cs type (length cs))
  unfolding before_checksum
  sum-before_checksum = rw covered-eq (sum-absorb_all cs (after_header buf sum type (length cs)))

  module _ (k : ℕ) (quiet_frame : quiet 0 (covered cs type (length cs) ++ k ∷ []) ≡ true) where
    quiet_data : quiet (after_header buf sum type (length cs)).enter_count (cs ++ k ∷ []) ≡ true
    unfolding quiet
    quiet_data =
        let q : quiet 0 ((magic ++ improv_version ∷ type ∷ length cs ∷ cs) ++ k ∷ []) ≡ true =
          ap (λ bs. quiet 0 (bs ++ k ∷ [])) (sym covered-eq) ∙ quiet_frame in
        ground (arith, q)

    read_loop-covered :
        (line : Bytes)
        → read_loop (waiting buf sum) (covered cs type (length cs) ++ k ∷ line)
          ≡ read_loop before_checksum (k ∷ line)
    unfolding before_checksum
    read_loop-covered line =
        ap (λ bs. read_loop (waiting buf sum) (bs ++ k ∷ line)) covered-eq
        ∙ (read_loop-header buf (cs ++ k ∷ line) sum type (length cs)
            ∙ read_loop-payload cs (k ∷ line) (after_header buf sum type (length cs)) (omega arith)
                (omega arith)
                (enter_count-absorb_all cs (after_header buf sum type (length cs)) k quiet_data).0)

    quiet_checksum : not (is_enter k && leb 2 before_checksum.enter_count) ≡ true
    unfolding before_checksum
    quiet_checksum =
        (enter_count-absorb_all cs (after_header buf sum type (length cs)) k quiet_data).1

    index_checksum : before_checksum.index ≡ before_checksum.length + 9
    unfolding before_checksum
    index_checksum =
        let r = after_header buf sum type (length cs) in
        omega (arith, index-absorb_all cs r, length-absorb_all cs r)

    -- the reader that looks at the checksum byte
    abbrev at_checksum : Reader
    at_checksum = record before_checksum { enter_count = next_count before_checksum.enter_count k }

    read_byte-checksum : read_byte before_checksum k ≡ (
        if k == before_checksum.sum % 256
        then returns no_error (record at_checksum {
          r_type = before_checksum.type;
          r_length = before_checksum.length;
          received_a_valid_packet = true;
        })
        else returns invalid_rpc_packet (record at_checksum {
          sent = before_checksum.sent ++ improv_send_error invalid_rpc_packet;
        }))
    unfolding read_byte
    read_byte-checksum = ground (arith, quiet_checksum, index_checksum)

  payload-before_checksum : take (length cs) before_checksum.payload ≡ cs
  unfolding before_checksum
  payload-before_checksum =
      ap (take (length cs))
        (payload-absorb_all cs (after_header buf sum type (length cs)) 0 (omega arith))
      ∙ take-write_at cs buf p.room

  parts-before_checksum :
      (before_checksum.type ≡ type)
      × (before_checksum.length ≡ length cs)
      × (before_checksum.sent ≡ [])
  unfolding before_checksum
  parts-before_checksum =
      let r = after_header buf sum type (length cs) in
      (type-absorb_all cs r, length-absorb_all cs r, sent-absorb_all cs r)

  nothing-before_checksum : (before_checksum.r_type ≡ 0) × (before_checksum.r_length ≡ 0)
  unfolding before_checksum
  nothing-before_checksum = nothing-absorb_all cs (after_header buf sum type (length cs))

-- What `improv_read` reports of a packet: its type and its data.
pub record Delivers (payload : Bytes) (type : ℕ) (r : Reader) : Type 0 where
  pub r_type : r.r_type ≡ type
  pub r_length : r.r_length ≡ length payload
  pub data_bytes : take (length payload) r.payload ≡ payload
  pub quiet_line : r.sent ≡ []

-- A rejected packet reports type 0 and length 0, and is answered by an error packet.
pub record Rejects (r : Reader) : Type 0 where
  pub r_type : r.r_type ≡ 0
  pub r_length : r.r_length ≡ 0
  pub answer : r.sent ≡ improv_send_error invalid_rpc_packet

module _ (buf cs line : Bytes) (type sum k : ℕ) (p : IsPacket buf cs type) where
  module _ (q : quiet 0 (covered cs type (length cs) ++ k ∷ []) ≡ true) where
    pub accepts :
        k ≡ add_all sum (covered cs type (length cs)) % 256
        → (r : Reader) × (read_loop (waiting buf sum) (covered cs type (length cs) ++ k ∷ line)
            ≡ returned no_error r line)
          × Delivers cs type r
    unfolding read_loop
    accepts e =
        let b = before_checksum buf cs type sum p in
        let same : k ≡ b.sum % 256 =
          e ∙ ap (λ s. s % 256) (sym (sum-before_checksum buf cs type sum p)) in
        let (t, l, s) = parts-before_checksum buf cs type sum p in
        (
          record (at_checksum buf cs type sum p k q) {
            r_type = b.type;
            r_length = b.length;
            received_a_valid_packet = true;
          },
          read_loop-covered buf cs type sum p k q line
              ∙ rw (read_byte-checksum buf cs type sum p k q, (==_iff k _).1 same, read_loop) refl,
          record {
            r_type = t;
            r_length = l;
            data_bytes = payload-before_checksum buf cs type sum p;
            quiet_line = s;
          },
        )

    pub rejects :
        k ≢ add_all sum (covered cs type (length cs)) % 256
        → (r : Reader) × (read_loop (waiting buf sum) (covered cs type (length cs) ++ k ∷ line)
            ≡ returned invalid_rpc_packet r line)
          × Rejects r
    unfolding read_loop
    rejects ne =
        let b = before_checksum buf cs type sum p in
        let other : (k == b.sum % 256) ≡ false =
          ground (arith, sum-before_checksum buf cs type sum p) in
        let (t, l, s) = parts-before_checksum buf cs type sum p in
        let (n, m) = nothing-before_checksum buf cs type sum p in
        (
          record (at_checksum buf cs type sum p k q) {
            sent = b.sent ++ improv_send_error invalid_rpc_packet;
          },
          read_loop-covered buf cs type sum p k q line
              ∙ rw (read_byte-checksum buf cs type sum p k q, other, read_loop) refl,
          record { r_type = n; r_length = m; answer = rw s },
        )
