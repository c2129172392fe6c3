-- ===== src/Wifi/Tests.antt =====
-- A station with stored credentials, and one that is configured by the smart configuration.
use rigcontrol.Common.{
  ℕ, ◌≡◌, refl, false, Option, none, some, List, [], ◌∷◌, ◌++◌, All, Bytes, codes, replicate,
}
use rigcontrol.Settings.{failed, Nvs}
use rigcontrol.AllZeroes.{leading, words, compare_rest, gm_all_zeroes}
use rigcontrol.Wifi.{
  Wifi, ip_event_sta_got_ip4, smart_config_round, stop_smart_config_task, gm_wifi_events_initialize,
}
use rigcontrol.Wifi.Step.{
  step, wifi_event_sta_start, wifi_event_sta_disconnected, sc_event_got_ssid_pswd, gm_wifi_restart,
  Event, sta_start, got_ip4, send_ack_done, got_ssid_pswd, task_begins, task_wakes, run,
}
use rigcontrol.Wifi.Addresses.{Ip6, is_zero, no_slot}
use rigcontrol.Wifi.Addresses.First.{IsNonzero, got_all, collect, slots_of, got_all-collect}
use rigcontrol.Wifi.Reach.{run-IsSound}
use rigcontrol.Wifi.Sound.{IsSound}
use rigcontrol.Wifi.Restart.{reconnects, IsRestarted, gm_wifi_restart_returns}

abbrev known : Nvs Unit
known = record {
  nvs_get_str = λ s key size. some (codes "shack");
  nvs_set_str = λ s key value. some s;
  nvs_erase_key = λ s key. failed;
}

abbrev blank : Nvs Unit
blank = record {
  nvs_get_str = λ s key size. none;
  nvs_set_str = λ s key value. some s;
  nvs_erase_key = λ s key. failed;
}

-- The task's wait clears the mark of the connection, so the disconnection is missed.
abbrev provisioned : List Event
provisioned =
    sta_start
    ∷ task_begins
    ∷ got_ssid_pswd (codes "shack") (codes "pw")
    ∷ got_ip4
    ∷ task_wakes
    ∷ send_ack_done
    ∷ task_wakes
    ∷ []

abbrev after_run : Option (Wifi Unit) → Wifi Unit
after_run none = gm_wifi_events_initialize tt
after_run (some w) = w

abbrev run_provisioned : Option (Wifi Unit)
run_provisioned = run blank provisioned (gm_wifi_events_initialize tt)

runs : run_provisioned ≡ some (after_run run_provisioned)
unfolding run step wifi_event_sta_start wifi_event_sta_disconnected ip_event_sta_got_ip4
    sc_event_got_ssid_pswd smart_config_round stop_smart_config_task gm_wifi_restart
runs = refl

missed : (after_run run_provisioned).bits.connected ≡ false
unfolding run step wifi_event_sta_start wifi_event_sta_disconnected ip_event_sta_got_ip4
    sc_event_got_ssid_pswd smart_config_round stop_smart_config_task gm_wifi_restart
missed = refl

run-IsSound_example : IsSound (after_run run_provisioned)
run-IsSound_example = run-IsSound blank provisioned tt (after_run run_provisioned) runs

gm_wifi_restart_returns_example :
    (w : Wifi Unit) × (gm_wifi_restart known (gm_wifi_events_initialize tt) ≡ some w)
    × IsRestarted known
        (reconnects (some (codes "shack")) (some (codes "shack")))
        (gm_wifi_events_initialize tt)
        w
gm_wifi_restart_returns_example = gm_wifi_restart_returns known (gm_wifi_events_initialize tt)

-- 2001::n
abbrev address : ℕ → Bytes
address n = 32 ∷ 1 ∷ replicate 13 0 ++ n ∷ []

abbrev no_addresses : Ip6
no_addresses = record {
  link_local = no_slot;
  site_local = no_slot;
  site_unique = no_slot;
  global = replicate 3 no_slot;
  router = no_slot;
}

abbrev got : List Bytes
got = address 1 ∷ address 1 ∷ address 2 ∷ address 3 ∷ []

got-IsNonzero : All IsNonzero got
unfolding is_zero gm_all_zeroes leading compare_rest words
got-IsNonzero = (refl, (refl, (refl, (refl, tt))))

got_all-collect_example : (got_all got no_addresses).global ≡ slots_of (collect [] got)
got_all-collect_example = got_all-collect got no_addresses got-IsNonzero refl
