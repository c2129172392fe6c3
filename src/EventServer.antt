-- ===== src/EventServer.antt =====
-- components/generic_main/event_server.c: events for the select task are bytes on a loopback
-- connection; some of them run a procedure in that task. Slower jobs go to event loops.
pub mod Stream
pub mod Start
mod Tests
use rigcontrol.Common.{
  le32, word_of, ℕ, zero, suc, ◌+◌, Bool, true, false, Option, none, some, List, [], ◌∷◌, ◌++◌,
  Bytes, length, take, drop, ltb, ◌==◌, if◌then◌else◌,
}

-- `enum gm_event_opcode`
pub data Opcode : Type 0 where
  event_invalid event_wake_select event_run : Opcode

abbrev pub opcode_code : Opcode → ℕ
opcode_code event_invalid = 0
opcode_code event_wake_select = 1
opcode_code event_run = 2

-- `gm_run_speed_t`
pub data Speed : Type 0 where
  slow medium fast : Speed

-- `gm_run_data_t`: both are addresses of 32 bits.
pub record Job : Type 0 where
  pub procedure : ℕ
  pub data_address : ℕ

-- The events as they are written: a wake-up is the header alone.
abbrev pub wakeup_bytes : Bytes
wakeup_bytes = le32 (opcode_code event_wake_select) ++ le32 0

abbrev pub run_bytes : Job → Bytes
run_bytes job =
    le32 (opcode_code event_run) ++ (le32 8 ++ (le32 job.procedure ++ le32 job.data_address))

-- The client's end: whether it is connected, what was written to it, and the jobs of the calls of
-- `esp_event_post_to`, which is given the address of the variable that holds the handle of the medium
-- or the slow event loop, in place of the handle.
pub record Client : Type 0 where
  pub connected : Bool
  pub written : Bytes
  pub medium_posts : List Job
  pub slow_posts : List Job

-- `none` is an abort.
unfoldable pub gm_select_wakeup : Client → Option Client
gm_select_wakeup c =
    if c.connected then some (record c { written = c.written ++ wakeup_bytes }) else none

-- `posts` is whether `esp_event_post_to` succeeds; a failure is an abort.
unfoldable pub gm_run : Job → Speed → Bool → Client → Option Client
gm_run job speed posts c = if c.connected then run_at speed else none
  where
    run_at : Speed → Option Client
    run_at fast = some (record c { written = c.written ++ run_bytes job })
    run_at medium =
        if posts then some (record c { medium_posts = c.medium_posts ++ job ∷ [] }) else none
    run_at slow = if posts then some (record c { slow_posts = c.slow_posts ++ job ∷ [] }) else none

-- What the handler reports.
pub data Handled : Type 0 where
  handled header_missing too_large data_missing invalid_opcode : Handled

-- The select task's end: the bytes that have arrived and are not read yet.
pub record Server (W : Type 0) : Type 0 where
  pub arrived : Bytes
  pub world : W

-- A call of a procedure with its data, by their addresses.
module _ {W : Type 0} (call : ℕ → ℕ → W → W) where
  -- The switch, on what was read behind the header. A job of fewer than eight bytes, which no writer
  -- sends, would be made up from what the buffer held before; here it is zeroes.
  unfoldable pub run_event : ℕ → Bytes → Server W → Server W × Handled
  unfolding word_of
  run_event operation event_data s =
      if operation == 1
      then (s, handled)
      else if operation == 2
      then (
        record s { world = call (word_of event_data) (word_of (drop 4 event_data)) s.world },
        handled,
      )
      else (s, invalid_opcode)

  unfoldable pub read_data : ℕ → ℕ → Server W → Server W × Handled
  unfolding run_event
  read_data operation size s =
      let event_data = take size s.arrived in
      if ltb 0 size
      then (if ltb 120 size
          then (s, too_large)
          else if length event_data == size
          then run_event operation event_data (record s { arrived = drop size s.arrived })
          else (record s { arrived = drop size s.arrived }, data_missing))
      else run_event operation [] s

  -- A read gives what has arrived of the bytes it asks for.
  unfoldable pub event_handler : Server W → Server W × Handled
  unfolding read_data word_of
  event_handler s =
      let header = take 8 s.arrived in
      let behind = record s { arrived = drop 8 s.arrived } in
      if length header == 8
      then read_data (word_of header) (word_of (drop 4 header)) behind
      else (behind, header_missing)
