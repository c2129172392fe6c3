-- ===== src/Improv/Tests.antt =====
-- Runs of the Improv code, and its theorems at concrete inputs.
use rigcontrol.Common.{
  ◌≡◌, refl, arith, true, false, none, some, [], ◌∷◌, ◌++◌, Bytes, codes, replicate, str_eq,
}
use rigcontrol.Improv.{covered, improv_send}
use rigcontrol.Improv.ImprovError.{no_error, invalid_rpc_packet}
use rigcontrol.Improv.ImprovState.{ready, provisioning, provisioned}
use rigcontrol.Improv.Read.{Reader, returned, improv_read}
use rigcontrol.Improv.Read.Scan.{quiet}
use rigcontrol.Improv.Read.Frame.{IsPacket, Delivers, Rejects}
use rigcontrol.Improv.Read.Line.{improv_read-improv_send, improv_read_bad_checksum}
use rigcontrol.Improv.Session.{
  Environment, Device, current_state_packet, improv_report_url, improv_process,
  wifi_event_sta_got_ip4, wifi_event_sta_disconnected,
}
use rigcontrol.Improv.Flow.{settings, improv_process-settings}

abbrev buf : Bytes
buf = replicate 256 0

-- Request Current State.
abbrev request : Bytes
request = 2 ∷ 0 ∷ []

send_request : improv_send request 3 2 ≡ codes "IMPROV" ++ 1 ∷ 3 ∷ 2 ∷ 2 ∷ 0 ∷ 0xe5 ∷ b'\n' ∷ []
unfolding improv_send
send_request = refl

request-IsPacket : IsPacket buf request 3
request-IsPacket = omega arith

improv_read-improv_send_example :
    (r : Reader) × (improv_read buf 0 (codes "boot" ++ improv_send request 3 2)
      ≡ returned no_error r (b'\n' ∷ []))
    × Delivers request 3 r
unfolding quiet
improv_read-improv_send_example =
    improv_read-improv_send buf request (codes "boot") 3 request-IsPacket (omega arith) refl

abbrev env : Environment
env = record {
  inet_ntop = λ a. codes "10.0.0.1";
  build_version = codes "1.0";
  old_ssid = some (codes "shack");
  old_password = none;
  is_connected = true;
  access_points = [];
}

abbrev device : Device
device = record {
  state = ready;
  address = 0;
  sent = [];
  nonvolatile_sets = [];
  is_overrun = false;
  disconnects = 0;
  handlers_registered = false;
}

improv_process-settings_example :
    let (d', e) =
      improv_process env device (1 ∷ 11 ∷ settings (codes "shack") (codes "k6bp") []) 3 in
    let up = wifi_event_sta_got_ip4 env d' 16777226 in
    let down = wifi_event_sta_disconnected env d' in
    (e ≡ no_error)
    × (d'.is_overrun ≡ false)
    × (d'.state ≡ provisioning)
    × (d'.nonvolatile_sets
        ≡ (codes "ssid", codes "shack") ∷ (codes "wifi_password", codes "k6bp") ∷ [])
    × (d'.sent ≡ current_state_packet env provisioning)
    × (up.state ≡ provisioned)
    × (up.sent
        ≡ current_state_packet env provisioning
          ++ (current_state_packet env provisioned ++ improv_report_url env 16777226))
    × (down.state ≡ ready)
    × (down.sent ≡ current_state_packet env provisioning ++ current_state_packet env ready)
unfolding str_eq
improv_process-settings_example =
    improv_process-settings env device (codes "shack") (codes "k6bp") [] 11 16777226 (omega arith)
      refl

improv_read_bad_checksum_example :
    (r : Reader) × (improv_read buf 0 (covered request 3 2 ++ 0xe6 ∷ [])
      ≡ returned invalid_rpc_packet r [])
    × Rejects r
unfolding quiet
improv_read_bad_checksum_example =
    improv_read_bad_checksum buf request [] [] 3 0xe6 request-IsPacket tt refl (omega arith)
