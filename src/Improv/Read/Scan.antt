-- ===== src/Improv/Read/Scan.antt =====
-- How the loop of `improv_read` moves through the header and the data of a packet.
use rigcontrol.Common.{
  ℕ, suc, ◌+◌, ◌-◌, ◌≤◌, ◌<◌, ◌≡◌, refl, ap, ◌∙◌, Bool, true, not, ◌&&◌, [], ◌∷◌, ◌++◌, Bytes,
  arith, leb, length, take, set,
}
use rigcontrol.Improv.{magic, improv_version, add_all}
use rigcontrol.Improv.Read.{
  Reader, more, is_enter, next_count, count_byte, read_byte, read_loop, start,
}

-- No three line ends come together in `bs` after `count` of them: the console is not asked for.
unfoldable pub quiet : ℕ → Bytes → Bool
quiet count [] = true
quiet count (c ∷ cs) = not (is_enter c && leb 2 count) && quiet (next_count count c) cs

-- The reader after a byte that it stores.
abbrev pub absorb : Reader → ℕ → Reader
absorb r c =
    count_byte
      (record r {
        enter_count = next_count r.enter_count c;
        payload = set r.payload (r.index - 9) c;
      })
      c

abbrev pub absorb_all : Reader → Bytes → Reader
absorb_all r [] = r
absorb_all r (c ∷ cs) = absorb_all (absorb r c) cs

read_byte-absorb :
    (r : Reader) (c : ℕ)
    → 9 ≤ r.index
    → r.index < 9 + r.length
    → not (is_enter c && leb 2 r.enter_count) ≡ true
    → read_byte r c ≡ more (absorb r c)
unfolding read_byte
read_byte-absorb r c lo hi q = ground arith

-- The data bytes of a packet are stored one after another.
pub read_loop-payload :
    (cs line : Bytes) (r : Reader)
    → 9 ≤ r.index
    → r.index + length cs ≡ 9 + r.length
    → quiet r.enter_count cs ≡ true
    → read_loop r (cs ++ line) ≡ read_loop (absorb_all r cs) line
unfolding read_loop quiet
read_loop-payload [] line r lo e q = refl
read_loop-payload (c ∷ cs) line r lo e q =
    rw (read_byte-absorb r c lo (omega arith) (ground arith), read_loop)
      (read_loop-payload cs line (absorb r c) (omega arith) (omega arith) (ground arith))

-- What the stored bytes leave in the reader.
pub index-absorb_all : (cs : Bytes) (r : Reader) → (absorb_all r cs).index ≡ r.index + length cs
index-absorb_all [] r = omega arith
index-absorb_all (c ∷ cs) r = omega (arith, index-absorb_all cs (absorb r c))

pub sum-absorb_all : (cs : Bytes) (r : Reader) → (absorb_all r cs).sum ≡ add_all r.sum cs
sum-absorb_all [] r = refl
sum-absorb_all (c ∷ cs) r = sum-absorb_all cs (absorb r c)

pub length-absorb_all : (cs : Bytes) (r : Reader) → (absorb_all r cs).length ≡ r.length
length-absorb_all [] r = refl
length-absorb_all (c ∷ cs) r = length-absorb_all cs (absorb r c)

pub type-absorb_all : (cs : Bytes) (r : Reader) → (absorb_all r cs).type ≡ r.type
type-absorb_all [] r = refl
type-absorb_all (c ∷ cs) r = type-absorb_all cs (absorb r c)

pub sent-absorb_all : (cs : Bytes) (r : Reader) → (absorb_all r cs).sent ≡ r.sent
sent-absorb_all [] r = refl
sent-absorb_all (c ∷ cs) r = sent-absorb_all cs (absorb r c)

pub enter_count-absorb_all :
    (cs : Bytes) (r : Reader) (c : ℕ)
    → quiet r.enter_count (cs ++ c ∷ []) ≡ true
    → (quiet r.enter_count cs ≡ true)
      × (not (is_enter c && leb 2 (absorb_all r cs).enter_count) ≡ true)
unfolding quiet
enter_count-absorb_all [] r c q = (refl, ground arith)
enter_count-absorb_all (x ∷ cs) r c q = ground (arith, enter_count-absorb_all cs (absorb r x) c)

-- `set` at `i` and on writes the bytes in order.
pub write_at : Bytes → ℕ → Bytes → Bytes
write_at buf i [] = buf
write_at buf i (c ∷ cs) = write_at (set buf i c) (i + 1) cs

pub payload-absorb_all :
    (cs : Bytes) (r : Reader) (i : ℕ)
    → r.index ≡ 9 + i
    → (absorb_all r cs).payload ≡ write_at r.payload i cs
unfolding write_at
payload-absorb_all [] r i e = refl
payload-absorb_all (c ∷ cs) r i e =
    let e' : r.index - 9 ≡ i = omega arith in
    payload-absorb_all cs (absorb r c) (i + 1) (omega arith) ∙ rw e'

write_at-shift :
    (x : ℕ) (buf : Bytes) (i : ℕ) (cs : Bytes)
    → write_at (x ∷ buf) (suc i) cs ≡ x ∷ write_at buf i cs
unfolding write_at
write_at-shift x buf i [] = refl
write_at-shift x buf i (c ∷ cs) =
    let e : suc i + 1 ≡ suc (i + 1) = omega arith in
    rw e (write_at-shift x (set buf i c) (i + 1) cs)

pub take-write_at :
    (cs buf : Bytes) → length cs ≤ length buf → take (length cs) (write_at buf 0 cs) ≡ cs
unfolding write_at
take-write_at [] buf h = refl
take-write_at (c ∷ cs) [] h = absurd (omega arith)
take-write_at (c ∷ cs) (b ∷ buf) h =
    let e : 0 + 1 ≡ suc 0 = omega arith in
    rw (e, write_at-shift) (ap (◌∷◌ c) (take-write_at cs buf (omega arith)))

-- A reader that has seen nothing of a packet, with `sum` left over from earlier bytes.
abbrev pub waiting : Bytes → ℕ → Reader
waiting buf sum = record (start buf 0) { sum = sum }

abbrev pub after_version : Bytes → ℕ → Reader
after_version buf sum = record (waiting buf (add_all sum (magic ++ improv_version ∷ []))) {
  index = 7;
}

abbrev pub after_type : Bytes → ℕ → ℕ → Reader
after_type buf sum type = record (count_byte (after_version buf sum) type) {
  enter_count = next_count 0 type;
  type = type;
}

abbrev pub after_header : Bytes → ℕ → ℕ → ℕ → Reader
after_header buf sum type len = record (count_byte (after_type buf sum type) len) {
  enter_count = next_count (next_count 0 type) len;
  length = len;
}

read_loop-version :
    (buf line : Bytes) (sum : ℕ)
    → read_loop (waiting buf sum) (magic ++ improv_version ∷ line)
      ≡ read_loop (after_version buf sum) line
unfolding read_loop read_byte
read_loop-version buf line sum = refl

read_byte-type :
    (buf : Bytes) (sum type : ℕ)
    → read_byte (after_version buf sum) type ≡ more (after_type buf sum type)
unfolding read_byte
read_byte-type buf sum type = ground arith

read_byte-length :
    (buf : Bytes) (sum type len : ℕ)
    → read_byte (after_type buf sum type) len ≡ more (after_header buf sum type len)
unfolding read_byte
read_byte-length buf sum type len = ground arith

pub read_loop-header :
    (buf line : Bytes) (sum type len : ℕ)
    → read_loop (waiting buf sum) (magic ++ improv_version ∷ type ∷ len ∷ line)
      ≡ read_loop (after_header buf sum type len) line
unfolding read_loop
read_loop-header buf line sum type len =
    read_loop-version buf (type ∷ len ∷ line) sum
    ∙ rw (read_byte-type buf sum type, read_byte-length buf sum type len, read_loop) refl
