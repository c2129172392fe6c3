-- ===== src/Wifi/Reach.antt =====
-- What holds of the station whatever happens.
use rigcontrol.Common.{
  suc, ◌-◌, ◌≡◌, refl, inl, inr, true, false, ◌||◌, Option, none, some, List, [], ◌∷◌, Bytes, ltb,
  Option-cases,
}
use mathlib.Core.Path.{subst}
use rigcontrol.Settings.{Nvs}
use rigcontrol.Wifi.{
  create_task, Wifi, called, set_bits, connected_bit, disconnected_bit, gm_wifi_events_initialize,
  wifi_connect_to_ap, is_blank, stop_all, disconnect, ip_event_sta_got_ip4,
  wifi_event_sta_connected_to_ap, sc_event_send_ack_done, smart_config_task, smart_config_round,
}
use rigcontrol.Wifi.Step.{
  stored_ssid, stored_password, reconnect, gm_wifi_restart, start_with, wifi_event_sta_start,
  wifi_event_sta_disconnected, store_credentials, sc_event_got_ssid_pswd, Event, sta_start,
  sta_disconnected, connected_to_ap, got_ip4, send_ack_done, got_ssid_pswd, task_begins, task_wakes,
  restart, step, run,
}
use rigcontrol.Wifi.Sound.{
  none-IsKept, bits-IsSound, connect-IsSound, if-IsSound, IsSoundIf, if-IsSoundIf, bind-IsSoundIf,
  disconnect-IsSoundIf, task-IsSound, round-IsSound, times-IsSoundIf, got_ip4-IsSound,
  stop_all-IsSound, IsSound,
}

module _ {S : Type 0} (nvs : Nvs S) where
  reconnect-IsSound :
      (ssid password : Option Bytes) (w : Wifi S)
      → IsSound w
      → IsSound (reconnect nvs ssid password w)
  reconnect-IsSound (some ssid) (some password) w h =
      if-IsSound (is_blank ssid || is_blank password) w (wifi_connect_to_ap ssid password w) h
        (connect-IsSound ssid password w h)
  reconnect-IsSound none none w h = h
  reconnect-IsSound none (some password) w h = h
  reconnect-IsSound (some ssid) none w h = h

  restart-IsSoundIf : (w : Wifi S) → IsSound w → IsSoundIf (gm_wifi_restart nvs w)
  unfolding gm_wifi_restart
  restart-IsSoundIf w h =
      let stopped = stop_all w in
      let bits = disconnected_bit true (connected_bit false stopped.bits) in
      bind-IsSoundIf (disconnect (set_bits bits stopped))
        (λ v. some (reconnect nvs (stored_ssid nvs w) (stored_password nvs w) v))
        (disconnect-IsSoundIf (set_bits bits stopped)
          (bits-IsSound bits stopped refl (stop_all-IsSound w h)))
        (λ v s. reconnect-IsSound (stored_ssid nvs w) (stored_password nvs w) v s)

  start-IsSound : (w : Wifi S) → IsSound w → IsSound (wifi_event_sta_start nvs w)
  unfolding wifi_event_sta_start
  start-IsSound w h =
      let started = start_with nvs (stored_ssid nvs w) (stored_password nvs w) w in
      let s = with-IsSound (stored_ssid nvs w) (stored_password nvs w) in
      record { one = s.one; ip4 = s.ip4; ssid = s.ssid; ack = s.ack; same = s.same }
    where
      created-IsSound :
          IsSound (called create_task (record w { task_id = true; created = suc w.created }))
      created-IsSound = record {
        one = h.one;
        ip4 = h.ip4;
        ssid = h.ssid;
        ack = h.ack;
        same = h.same;
      }

      with-IsSound : (ssid password : Option Bytes) → IsSound (start_with nvs ssid password w)
      with-IsSound (some ssid) (some password) =
          if-IsSound (is_blank ssid)
            (called create_task (record w { task_id = true; created = suc w.created }))
            (wifi_connect_to_ap ssid password w) created-IsSound (connect-IsSound ssid password w h)
      with-IsSound none none = created-IsSound
      with-IsSound none (some password) = created-IsSound
      with-IsSound (some ssid) none = created-IsSound

  stored-IsSoundIf :
      (ssid password : Bytes) (w : Wifi S)
      → IsSound w
      → IsSoundIf (sc_event_got_ssid_pswd nvs ssid password w)
  unfolding sc_event_got_ssid_pswd
  stored-IsSoundIf ssid password w h =
      elim (Option-cases (store_credentials nvs ssid password w.store)) [
        | inl n ↦ rw (n, IsSoundIf, sc_event_got_ssid_pswd) tt
        | inr (s, e) ↦
            rw (e, IsSoundIf, sc_event_got_ssid_pswd)
              (record { one = h.one; ip4 = h.ip4; ssid = h.ssid; ack = h.ack; same = h.same })
      ]

  step-IsSoundIf : (e : Event) (w : Wifi S) → IsSound w → IsSoundIf (step nvs e w)
  unfolding step wifi_event_sta_disconnected
  step-IsSoundIf sta_start w h = start-IsSound w h
  step-IsSoundIf sta_disconnected w h =
      let bits = disconnected_bit true (connected_bit false w.bits) in
      if-IsSoundIf w.bits.connected (gm_wifi_restart nvs (set_bits bits w)) (some w)
        (restart-IsSoundIf (set_bits bits w) (bits-IsSound bits w refl h)) h
  step-IsSoundIf connected_to_ap w h =
      times-IsSoundIf w.connected_handlers (λ x. some (wifi_event_sta_connected_to_ap x)) w
        (λ v k. record { one = k.one; ip4 = k.ip4; ssid = k.ssid; ack = k.ack; same = k.same }) h
  step-IsSoundIf got_ip4 w h =
      times-IsSoundIf w.ip4_handlers (λ x. some (ip_event_sta_got_ip4 x)) w
        (λ v k. got_ip4-IsSound v k) h
  step-IsSoundIf send_ack_done w h =
      times-IsSoundIf w.ack_handlers (λ x. some (sc_event_send_ack_done x)) w
        (λ v k. record { one = k.one; ip4 = k.ip4; ssid = k.ssid; ack = k.ack; same = k.same }) h
  step-IsSoundIf (got_ssid_pswd ssid password) w h =
      times-IsSoundIf w.ssid_handlers (sc_event_got_ssid_pswd nvs ssid password) w
        (λ v k. stored-IsSoundIf ssid password v k) h
  step-IsSoundIf task_begins w h =
      if-IsSoundIf (ltb 0 w.created)
        (some (smart_config_task (record w { created = w.created - 1 }))) (some w)
        (task-IsSound (record w { created = w.created - 1 })
          (record { one = h.one; ip4 = h.ip4; ssid = h.ssid; ack = h.ack; same = h.same }))
        h
  step-IsSoundIf task_wakes w h =
      if-IsSoundIf (ltb 0 w.waiting) (some (smart_config_round w)) (some w) (round-IsSound w h) h
  step-IsSoundIf restart w h = restart-IsSoundIf w h

  run-IsSoundIf : (es : List Event) (w : Wifi S) → IsSound w → IsSoundIf (run nvs es w)
  unfolding run
  run-IsSoundIf [] w h = h
  run-IsSoundIf (e ∷ es) w h =
      bind-IsSoundIf (step nvs e w) (run nvs es) (step-IsSoundIf e w h)
        (λ v s. run-IsSoundIf es v s)

  -- From the station that gm_wifi_events_initialize sets up, whatever events happen in whatever order,
  -- the station is never marked as both connected and disconnected, every handler instance that is
  -- kept to be unregistered is registered, and there are as many handlers for the connection to the
  -- access point as for IPv6 addresses.
  pub run-IsSound :
      (es : List Event) (store : S) (w : Wifi S)
      → run nvs es (gm_wifi_events_initialize store) ≡ some w
      → IsSound w
  run-IsSound es store w e = subst IsSoundIf e (
      run-IsSoundIf es (gm_wifi_events_initialize store) (record {
        one = refl;
        ip4 = none-IsKept 0;
        ssid = none-IsKept 0;
        ack = none-IsKept 0;
        same = refl;
      }))
