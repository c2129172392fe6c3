-- ===== src/Stun/Tests.antt =====
-- A response with a plain and an exclusive-or address, and a run of requests.
use rigcontrol.Common.{
  ℕ, ◌≡◌, ◌↔◌, refl, arith, Bool, true, false, none, some, List, [], ◌∷◌, get_or, replicate,
}
use rigcontrol.Stun.{Memory, Address, in4, unset, accepted, process_received_packet}
use rigcontrol.Stun.Answer.{Chain, last_of}
use rigcontrol.Stun.Attributes.{Answers, process_received_packet_iff, process_received_packet-xor}
use rigcontrol.Stun.Run.{World, Attempt, Event, run_gm_stun}
use rigcontrol.Stun.Report.{Sends, verdict}
use rigcontrol.Stun.Retries.{Reported, events_of, gm_stun_once}

abbrev response : Memory
response at =
    get_or
      (0 ∷ 0x20 ∷ 0 ∷ 8 ∷ 0 ∷ 1 ∷ 0x33 ∷ 0x26 ∷ 0x5e ∷ 0x12 ∷ 0xa4 ∷ 0x43 ∷ 0 ∷ 1 ∷ 0 ∷ 8 ∷ 0 ∷ 1
        ∷ 1 ∷ 2 ∷ 3 ∷ 4 ∷ 5 ∷ 6 ∷ [])
      at 0

abbrev attributes : List (ℕ × ℕ)
attributes = (0x20, 0) ∷ (1, 12) ∷ []

response-Chain : Chain response 0 24 attributes
response-Chain = (
  refl,
  refl,
  λ e. cc,
  omega arith,
  omega arith,
  (refl, refl, λ e. cc, omega arith, omega arith, refl),
)

process_received_packet-xor_example :
    process_received_packet response 24 44 unset ≡ accepted (in4 0x6497 0x0100007f)
unfolding last_of
process_received_packet-xor_example =
    process_received_packet-xor response 24 44 unset attributes 0 0x3412 0x0100007f (omega arith)
      response-Chain refl refl refl refl

process_received_packet_iff_example :
    (process_received_packet response 24 44 unset ≡ accepted (in4 0x6497 0x0100007f))
    ↔ Answers response 24 44 (in4 0x6497 0x0100007f)
process_received_packet_iff_example =
    process_received_packet_iff response 24 44 unset (in4 0x6497 0x0100007f)

abbrev idle : World
idle = record { stun_sock = none; calls = [] }

abbrev sent : Attempt
sent = record { is_resolved = true; sock = some 7; all_sent = true }

abbrev answered : Event
answered = record {
  readable = true;
  exception = false;
  timeout = false;
  reception = record { memory = response; attribute_size = 24; receive_result = 44 };
}

abbrev silence : Event
silence = record {
  readable = false;
  exception = false;
  timeout = true;
  reception = record { memory = response; attribute_size = 24; receive_result = 0 };
}

abbrev rounds : List (Attempt × Event)
rounds = (sent, silence) ∷ (sent, answered) ∷ replicate 4 (sent, silence)

gm_stun_once_example :
    (success : Bool) × (given : Address) × (verdict 0 unset (events_of rounds)
      ≡ some (success, given))
    × Reported idle (run_gm_stun false unset idle rounds) (success, false, given)
gm_stun_once_example =
    gm_stun_once rounds false unset idle (goes, (goes, (goes, (goes, (goes, (goes, tt))))))
      (omega arith)
  where
    goes : Sends (sent, silence)
    goes = (refl, refl, λ e. cc)
