-- ===== src/Improv/Session.antt =====
-- The device's side of an Improv session: its state, the commands, and the WiFi events.
use rigcontrol.Common.{
  ◌||◌, ltb, ℕ, ◌+◌, ◌%◌, Bool, true, false, ◌&&◌, Option, none, some, List, [], ◌∷◌, ◌++◌, Bytes,
  codes, length, take, drop, get_or, ◌==◌, if◌then◌else◌, str_eq, c_string,
}
use rigcontrol.Improv.{
  ImprovType, type_code, RpcCommand, command_code, ImprovState, state_code, ImprovError,
  improv_send, improv_send_error, improv_encode_string, improv_decode_string,
}
use rigcontrol.Improv.ImprovState.{ready, provisioning, provisioned}

-- A record of a scan: the name, the printed signal strength, and whether it is an open network.
pub record AccessPoint : Type 0 where
  pub ssid : Bytes
  pub rssi : Bytes
  pub is_open : Bool

-- What the session takes from the rest of the system: `inet_ntop`, the build's version, the
-- stored credentials, whether WiFi is connected, and the networks that a scan finds.
pub record Environment : Type 0 where
  pub inet_ntop : ℕ → Bytes
  pub build_version : Bytes
  pub old_ssid : Option Bytes
  pub old_password : Option Bytes
  pub is_connected : Bool
  pub access_points : List AccessPoint

-- The statics of the session, what went out on the line, the calls that reach other parts, and
-- whether something was written behind a buffer on the stack.
pub record Device : Type 0 where
  pub state : ImprovState
  pub address : ℕ
  pub sent : Bytes
  pub nonvolatile_sets : List (Bytes × Bytes)
  pub disconnects : ℕ
  pub handlers_registered : Bool
  pub is_overrun : Bool

-- `improv_send(fd, data, RPC_Result, offset)` for `data` with its command and its length set.
abbrev rpc_result : RpcCommand → Bytes → Bytes
rpc_result command body =
    improv_send ((command_code command % 256) ∷ (length body % 256) ∷ body)
      (type_code ImprovType.rpc_result) (length body + 2)

module _ (env : Environment) where
  open env use {inet_ntop, build_version, old_ssid, old_password, is_connected, access_points}

  -- `snprintf` into 26 bytes keeps 25 of them.
  pub improv_report_url : ℕ → Bytes
  improv_report_url address = rpc_result RpcCommand.send_wifi_settings (
      if address == 0
      then []
      else improv_encode_string (take 25 (codes "http://" ++ inet_ntop address ++ codes "/")))

  -- The URL follows only in the state Provisioned.
  abbrev pub report_if : ImprovState → ℕ → Bytes
  report_if provisioned address = improv_report_url address
  report_if _ address = []

  abbrev pub current_state_packet : ImprovState → Bytes
  current_state_packet s =
      improv_send ((state_code s % 256) ∷ []) (type_code ImprovType.current_state) 1

  unfoldable pub improv_send_current_state : Device → Device
  improv_send_current_state d = record d {
    sent = d.sent ++ (current_state_packet d.state ++ report_if d.state d.address);
  }

  unfoldable pub wifi_event_sta_got_ip4 : Device → ℕ → Device
  unfolding improv_send_current_state
  wifi_event_sta_got_ip4 d addr =
      improv_send_current_state
        (record d { handlers_registered = false; address = addr; state = provisioned })

  unfoldable pub wifi_event_sta_disconnected : Device → Device
  unfolding improv_send_current_state
  wifi_event_sta_disconnected d =
      improv_send_current_state (record d { handlers_registered = false; state = ready })

  -- `err == ESP_OK && strcmp(new, old) == 0`
  abbrev pub matches_old : Bytes → Option Bytes → Bool
  matches_old new none = false
  matches_old new (some old) = str_eq new old

  abbrev pub store_credentials : Device → Bytes → Bytes → Device
  store_credentials d ssid password = record d {
    disconnects = if is_connected then d.disconnects + 1 else d.disconnects;
    handlers_registered = true;
    nonvolatile_sets =
        d.nonvolatile_sets ++ (codes "ssid", ssid) ∷ (codes "wifi_password", password) ∷ [];
  }

  abbrev pub set_credentials : Device → Bytes → Bytes → Device
  set_credentials d ssid password =
      if is_connected && (matches_old ssid old_ssid && matches_old password old_password)
      then improv_send_current_state (record d { state = provisioned })
      else store_credentials (improv_send_current_state (record d { state = provisioning })) ssid
          password

  -- The lengths of the strings are not looked at, although the buffers have 33 and 65 bytes.
  abbrev pub decoded_into_buffers : Device → Bytes → Bytes → Device
  decoded_into_buffers d ssid password = record d {
    is_overrun = d.is_overrun || (ltb 32 (length ssid) || ltb 64 (length password));
  }

  -- `nvs_get_str` fills 33 and 65 bytes; `strcmp` reads the strings up to their first null.
  unfoldable pub improv_set_wifi : Device → Bytes → Device
  unfolding improv_send_current_state
  improv_set_wifi d bytes =
      let (ssid, used) = improv_decode_string bytes in
      let (password, _) = improv_decode_string (drop used bytes) in
      set_credentials (decoded_into_buffers d ssid password) (c_string ssid) (c_string password)

  pub improv_send_device_information : Bytes
  improv_send_device_information = rpc_result RpcCommand.request_device_information (
      improv_encode_string (codes "K6BP Rigcontrol")
      ++ (improv_encode_string build_version ++ improv_encode_string (codes "ESP32 Audio Kit")))

  -- One result for each network, and an empty one behind them. `snprintf` keeps 4 bytes.
  scan_results : List AccessPoint → Bytes
  scan_results [] = rpc_result RpcCommand.request_scanned_wifi_networks []
  scan_results (ap ∷ aps) =
      rpc_result RpcCommand.request_scanned_wifi_networks (
        improv_encode_string ap.ssid
        ++ (improv_encode_string (take 4 ap.rssi)
            ++ improv_encode_string (if ap.is_open then codes "NO" else codes "YES")))
      ++ scan_results aps

  pub improv_send_scanned_wifi_networks : Bytes
  unfolding scan_results
  improv_send_scanned_wifi_networks = scan_results access_points

  abbrev reply : Device → Bytes → Device
  reply d packet = record d { sent = d.sent ++ packet }

  -- The inner `switch`, on the command.
  abbrev run_command : Device → ℕ → Bytes → Device × ImprovError
  run_command d command body =
      if command == command_code RpcCommand.send_wifi_settings
      then (improv_set_wifi d body, ImprovError.no_error)
      else if command == command_code RpcCommand.request_current_state
      then (improv_send_current_state d, ImprovError.no_error)
      else if command == command_code RpcCommand.request_device_information
      then (reply d improv_send_device_information, ImprovError.no_error)
      else if command == command_code RpcCommand.request_scanned_wifi_networks
      then (reply d improv_send_scanned_wifi_networks, ImprovError.no_error)
      else (
        reply d (improv_send_error ImprovError.invalid_rpc_packet),
        ImprovError.invalid_rpc_packet,
      )

  unfoldable pub improv_process : Device → Bytes → ℕ → Device × ImprovError
  improv_process d bytes type =
      if type == type_code ImprovType.rpc_command
      then run_command d (get_or bytes 0 0) (drop 2 bytes)
      else (
        reply d (improv_send_error ImprovError.unknown_rpc_command),
        ImprovError.unknown_rpc_command,
      )
