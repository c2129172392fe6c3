-- ===== src/Wifi/Step.antt =====
-- wifi.c: the events that start, stop and restart the station, with the stored credentials.
use rigcontrol.Common.{
  ℕ, zero, suc, ◌-◌, true, false, ◌||◌, Option, none, some, List, [], ◌∷◌, Bytes, codes, ltb,
  if◌then◌else◌,
}
use rigcontrol.Settings.{Nvs}
use rigcontrol.Wifi.{
  Wifi, is_blank, config_of, connected_bit, disconnected_bit, called, set_bits, wifi_connect_to_ap,
  stop_smart_config_task, stop_all, disconnect, ip_event_sta_got_ip4,
  wifi_event_sta_connected_to_ap, sc_event_send_ack_done, smart_config_task, smart_config_round,
  create_task, commit, set_config, wifi_connect, wifi_disconnect,
}

-- A handler is called once for each of its instances.
abbrev pub times : {A : Type 0} → ℕ → (A → Option A) → A → Option A
times zero f a = some a
times (suc n) f a = elim (f a) [ none ↦ none | some b ↦ times n f b ]

module _ {S : Type 0} (nvs : Nvs S) where
  -- The credentials, in buffers of 33 and 65 bytes.
  abbrev pub stored_ssid : Wifi S → Option Bytes
  stored_ssid w = nvs.nvs_get_str w.store (codes "ssid") 33

  abbrev pub stored_password : Wifi S → Option Bytes
  stored_password w = nvs.nvs_get_str w.store (codes "wifi_password") 65

  abbrev pub reconnect : Option Bytes → Option Bytes → Wifi S → Wifi S
  reconnect (some ssid) (some password) w =
      if is_blank ssid || is_blank password then w else wifi_connect_to_ap ssid password w
  reconnect _ _ w = w

  unfoldable pub gm_wifi_restart : Wifi S → Option (Wifi S)
  unfolding stop_smart_config_task
  gm_wifi_restart w =
      let stopped = stop_all w in
      let marked = set_bits (disconnected_bit true (connected_bit false stopped.bits)) stopped in
      elim (disconnect marked) [
        | none ↦ none
        | some w' ↦ some (reconnect (stored_ssid w) (stored_password w) w')
      ]

  abbrev pub start_with : Option Bytes → Option Bytes → Wifi S → Wifi S
  start_with (some ssid) (some password) w =
      if is_blank ssid
      then called create_task (record w { task_id = true; created = suc w.created })
      else wifi_connect_to_ap ssid password w
  start_with _ _ w = called create_task (record w { task_id = true; created = suc w.created })

  unfoldable pub wifi_event_sta_start : Wifi S → Wifi S
  wifi_event_sta_start w =
      let started = start_with (stored_ssid w) (stored_password w) w in
      let b = started.bits in set_bits (record b { station_ready = true }) started

  unfoldable pub wifi_event_sta_disconnected : Wifi S → Option (Wifi S)
  unfolding gm_wifi_restart
  wifi_event_sta_disconnected w =
      if w.bits.connected
      then gm_wifi_restart (set_bits (disconnected_bit true (connected_bit false w.bits)) w)
      else some w

  -- `none` is an abort, where a value cannot be stored.
  abbrev pub store_credentials : Bytes → Bytes → S → Option S
  store_credentials ssid password s = elim (nvs.nvs_set_str s (codes "ssid") ssid) [
    | none ↦ none
    | some s' ↦ nvs.nvs_set_str s' (codes "wifi_password") password
  ]

  unfoldable pub sc_event_got_ssid_pswd : Bytes → Bytes → Wifi S → Option (Wifi S)
  sc_event_got_ssid_pswd ssid password w = elim (store_credentials ssid password w.store) [
    | none ↦ none
    | some s ↦ some (
        called wifi_connect (
          called (set_config (config_of ssid password true))
            (called wifi_disconnect (called commit (record w { store = s })))))
  ]

-- What happens: events of the platform, the smart configuration task being run, and a restart that
-- another part asks for.
pub data Event : Type 0 where
  sta_start sta_disconnected connected_to_ap got_ip4 send_ack_done : Event
  got_ssid_pswd : Bytes → Bytes → Event
  task_begins task_wakes restart : Event

module _ {S : Type 0} (nvs : Nvs S) where
  unfoldable pub step : Event → Wifi S → Option (Wifi S)
  unfolding wifi_event_sta_start wifi_event_sta_disconnected ip_event_sta_got_ip4
      sc_event_got_ssid_pswd smart_config_round gm_wifi_restart
  step sta_start w = some (wifi_event_sta_start nvs w)
  step sta_disconnected w = wifi_event_sta_disconnected nvs w
  step connected_to_ap w =
      times w.connected_handlers (λ x. some (wifi_event_sta_connected_to_ap x)) w
  step got_ip4 w = times w.ip4_handlers (λ x. some (ip_event_sta_got_ip4 x)) w
  step send_ack_done w = times w.ack_handlers (λ x. some (sc_event_send_ack_done x)) w
  step (got_ssid_pswd ssid password) w =
      times w.ssid_handlers (sc_event_got_ssid_pswd nvs ssid password) w
  step task_begins w =
      if ltb 0 w.created
      then some (smart_config_task (record w { created = w.created - 1 }))
      else some w
  step task_wakes w = if ltb 0 w.waiting then some (smart_config_round w) else some w
  step restart w = gm_wifi_restart nvs w

  -- `none` is an abort, or a wait that does not end.
  unfoldable pub run : List Event → Wifi S → Option (Wifi S)
  unfolding step
  run [] w = some w
  run (e ∷ es) w = elim (step e w) [ none ↦ none | some w' ↦ run es w' ]
