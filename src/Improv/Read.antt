-- ===== src/Improv/Read.antt =====
-- `improv_read`: the machine that takes one byte of the serial line after another.
pub mod Scan
pub mod Frame
pub mod Line
pub mod Progress
use rigcontrol.Common.{
  ℕ, ◌+◌, ◌-◌, ◌%◌, ◌^◌, Bool, true, false, not, ◌&&◌, ◌||◌, [], ◌∷◌, ◌++◌, Bytes, ltb, leb, ◌==◌,
  if◌then◌else◌, get_or, set,
}
use rigcontrol.Improv.{ImprovError, magic, improv_version, improv_send_error}
use rigcontrol.Improv.ImprovError.{no_error, invalid_rpc_packet, end_improv}

-- The locals of `improv_read`, the statics and results that it sets, and what it has written.
pub record Reader : Type 0 where
  pub index : ℕ
  pub enter_count : ℕ
  pub type : ℕ
  pub length : ℕ
  pub sum : ℕ
  pub payload : Bytes
  pub r_type : ℕ
  pub r_length : ℕ
  pub received_a_valid_packet : Bool
  pub sent : Bytes

-- How the loop goes on after a byte: `esp_restart` does not come back.
pub data Next : Type 0 where
  more : Reader → Next
  returns : ImprovError → Reader → Next
  restarts : Reader → Next

abbrev pub is_enter : ℕ → Bool
is_enter c = c == b'\r' || c == b'\n'

abbrev pub next_count : ℕ → ℕ → ℕ
next_count count c = if is_enter c then count + 1 else 0

abbrev reject : Reader → Next
reject r =
    returns invalid_rpc_packet (record r { sent = r.sent ++ improv_send_error invalid_rpc_packet })

-- `internal_checksum += c; index++;`
abbrev pub count_byte : Reader → ℕ → Reader
count_byte r c = record r { sum = (r.sum + c) % 2 ^ 32; index = r.index + 1 }

-- What follows the loop, at the checksum byte.
verify : Reader → ℕ → Next
verify r checksum =
    if checksum == r.sum % 256
    then returns no_error
        (record r { r_type = r.type; r_length = r.length; received_a_valid_packet = true })
    else reject r

-- The test on the data bytes and on the checksum byte.
store : Reader → ℕ → Next
unfolding verify
store r c =
    if leb 9 r.index && ltb r.index (9 + r.length)
    then more (count_byte (record r { payload = set r.payload (r.index - 9) c }) c)
    else if r.index == r.length + 9
    then verify r c
    else more (count_byte r c)

-- The `switch` on the header's bytes.
header : Reader → ℕ → Next
unfolding store
header r c =
    if r.index == 6
    then if c == improv_version then store r c else reject r
    else if r.index == 7
    then store (record r { type = c }) c
    else if r.index == 8
    then store (record r { length = c }) c
    else store r c

-- Data is thrown away until the magic word has been seen.
seek : Reader → ℕ → Next
unfolding header
seek r c =
    if ltb r.index 6 && not (c == get_or magic r.index 0)
    then if c == 0xc0 then restarts r else more (record r { index = 0 })
    else header r c

-- One round of the loop, at the byte that `read` returned.
pub read_byte : Reader → ℕ → Next
unfolding seek
read_byte r c =
    if is_enter c && leb 2 r.enter_count
    then returns end_improv r
    else seek (record r { enter_count = next_count r.enter_count c }) c

-- How `improv_read` ends, in which state, and what it leaves unread on the line.
pub data Outcome : Type 0 where
  returned : ImprovError → Reader → Bytes → Outcome
  restarted : Reader → Outcome

-- The loop; where the line gives no byte, `read` fails.
unfoldable pub read_loop : Reader → Bytes → Outcome
read_loop r [] = returned invalid_rpc_packet r []
read_loop r (c ∷ line) = elim (read_byte r c) [
  | more r' ↦ read_loop r' line
  | returns e r' ↦ returned e r' line
  | restarts r' ↦ restarted r'
]

-- The reader at the start of a call: `data` is the caller's, `enter_count` is static.
abbrev pub start : Bytes → ℕ → Reader
start payload count = record {
  index = 0;
  enter_count = count;
  type = 0;
  length = 0;
  sum = 0;
  payload = payload;
  r_type = 0;
  r_length = 0;
  received_a_valid_packet = false;
  sent = [];
}

unfoldable pub improv_read : Bytes → ℕ → Bytes → Outcome
improv_read payload count line = read_loop (start payload count) line
