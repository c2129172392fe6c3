-- ===== src/Wifi.antt =====
-- components/generic_main/wifi.c: the WiFi station, as the events of the platform drive it.
pub mod Step
pub mod Addresses
pub mod Sound
pub mod Reach
pub mod Restart
mod Tests
use rigcontrol.Common.{
  ℕ, zero, suc, ◌+◌, ◌-◌, Bool, true, false, ◌&&◌, ◌||◌, Option, none, some, List, [], ◌∷◌, ◌++◌,
  Bytes, codes, take, ltb, if◌then◌else◌,
}

-- `enum EventBits`, in the event group.
pub record Bits : Type 0 where
  pub connected : Bool
  pub disconnected : Bool
  pub station_ready : Bool
  pub esptouch_done : Bool

-- `wifi_config_t`: what the station is given of it, and whether it is left at WIFI_AUTH_OPEN, as a
-- cleared one is.
pub record Config : Type 0 where
  pub ssid : Bytes
  pub password : Bytes
  pub is_open : Bool

-- The calls of the platform and of the other parts.
pub data Call : Type 0 where
  create_task smartconfig_set_type smartconfig_start smartconfig_stop commit : Call
  set_config : Config → Call
  set_mode wifi_connect wifi_disconnect : Call
  start_webserver stop_webserver log_server_start log_server_stop : Call
  icmpv6_start icmpv6_stop linklocal_create dhcp6_enable : Call
  pcp_start_ipv4 pcp_request_ipv4 pcp_stop_ipv4 pcp_stop_ipv6 : Call
  stun_ipv4 stun_stop : Call

-- The station: its bits, the handler instances that are kept in variables, how many instances of each
-- handler are registered, the smart configuration tasks that are created and those that wait, the
-- store, and the calls made.
pub record Wifi (S : Type 0) : Type 0 where
  pub bits : Bits
  pub kept_ip4 : Bool
  pub kept_ssid : Bool
  pub kept_ack : Bool
  pub ip4_handlers : ℕ
  pub ip6_handlers : ℕ
  pub connected_handlers : ℕ
  pub ssid_handlers : ℕ
  pub ack_handlers : ℕ
  pub task_id : Bool
  pub created : ℕ
  pub waiting : ℕ
  pub store : S
  pub calls : List Call

-- `ssid_size > 1` does not hold: the size counts the null.
abbrev pub is_blank : Bytes → Bool
is_blank [] = true
is_blank (c ∷ cs) = false

abbrev pub config_of : Bytes → Bytes → Bool → Config
config_of ssid password is_open = record {
  ssid = take 32 ssid;
  password = take 64 password;
  is_open = is_open;
}

abbrev pub connected_bit : Bool → Bits → Bits
connected_bit b bits = record bits { connected = b }

abbrev pub disconnected_bit : Bool → Bits → Bits
disconnected_bit b bits = record bits { disconnected = b }

module _ {S : Type 0} where
  abbrev pub called : Call → Wifi S → Wifi S
  called c w = record w { calls = w.calls ++ c ∷ [] }

  abbrev pub set_bits : Bits → Wifi S → Wifi S
  set_bits b w = record w { bits = b }

  -- `gm_wifi_events_initialize`, on an event group that is not there yet.
  abbrev pub gm_wifi_events_initialize : S → Wifi S
  gm_wifi_events_initialize store = record {
    bits = record {
      connected = false;
      disconnected = true;
      station_ready = false;
      esptouch_done = false;
    };
    kept_ip4 = false;
    kept_ssid = false;
    kept_ack = false;
    ip4_handlers = 0;
    ip6_handlers = 0;
    connected_handlers = 0;
    ssid_handlers = 0;
    ack_handlers = 0;
    task_id = false;
    created = 0;
    waiting = 0;
    store = store;
    calls = [];
  }

  -- `!!uxBits & CONNECTED_BIT`, which is `(!!uxBits) & 1`.
  abbrev pub gm_wifi_is_connected : Wifi S → Bool
  gm_wifi_is_connected w =
      w.bits.connected || (w.bits.disconnected || (w.bits.station_ready || w.bits.esptouch_done))

  -- The bit is cleared when the wait ends; `none` is a wait that does not end.
  abbrev pub gm_wifi_wait_until_disconnected : Wifi S → Option (Wifi S)
  gm_wifi_wait_until_disconnected w =
      if w.bits.disconnected then some (set_bits (disconnected_bit false w.bits) w) else none

  -- The configuration is cut to its fields, of 32 and 64 bytes.
  abbrev pub wifi_connect_to_ap : Bytes → Bytes → Wifi S → Wifi S
  wifi_connect_to_ap ssid password w = called wifi_connect (
      called (set_config (config_of ssid password (is_blank password))) (
        called set_mode (record w {
          connected_handlers = suc w.connected_handlers;
          ip4_handlers = suc w.ip4_handlers;
          kept_ip4 = true;
          ip6_handlers = suc w.ip6_handlers;
        })))

  abbrev pub unregister_ip4 : Wifi S → Wifi S
  unregister_ip4 w =
      if w.kept_ip4 then record w { ip4_handlers = w.ip4_handlers - 1; kept_ip4 = false } else w

  abbrev pub unregister_ssid : Wifi S → Wifi S
  unregister_ssid w =
      if w.kept_ssid then record w { ssid_handlers = w.ssid_handlers - 1; kept_ssid = false } else w

  abbrev pub unregister_ack : Wifi S → Wifi S
  unregister_ack w =
      if w.kept_ack then record w { ack_handlers = w.ack_handlers - 1; kept_ack = false } else w

  -- The task's id is cleared first, so the task is never deleted.
  unfoldable pub stop_smart_config_task : Wifi S → Wifi S
  stop_smart_config_task w =
      unregister_ack
        (unregister_ssid (unregister_ip4 (called smartconfig_stop (record w { task_id = false }))))

  -- What gm_wifi_restart stops before it looks at the connection.
  abbrev pub stop_all : Wifi S → Wifi S
  stop_all w = called stun_stop (
      called pcp_stop_ipv6 (
        called pcp_stop_ipv4 (
          called icmpv6_stop
            (called log_server_stop (called stop_webserver (stop_smart_config_task w))))))

  abbrev pub disconnect : Wifi S → Option (Wifi S)
  disconnect w =
      if gm_wifi_is_connected w
      then gm_wifi_wait_until_disconnected (called wifi_disconnect w)
      else some w

  -- The handler of the event "got an IPv4 address". The address itself is not modelled.
  unfoldable pub ip_event_sta_got_ip4 : Wifi S → Wifi S
  ip_event_sta_got_ip4 w = called log_server_start (
      called start_webserver (
        called pcp_request_ipv4 (
          called pcp_start_ipv4
            (called stun_ipv4 (clear_disconnected (set_bits (connected_bit true w.bits) w))))))
    where
      clear_disconnected : Wifi S → Wifi S
      clear_disconnected v = set_bits (disconnected_bit false v.bits) v

  abbrev pub wifi_event_sta_connected_to_ap : Wifi S → Wifi S
  wifi_event_sta_connected_to_ap w =
      called dhcp6_enable (called linklocal_create (called icmpv6_start w))

  abbrev pub sc_event_send_ack_done : Wifi S → Wifi S
  sc_event_send_ack_done w = let b = w.bits in set_bits (record b { esptouch_done = true }) w

  -- `smart_config_task`, up to its loop.
  abbrev pub smart_config_task : Wifi S → Wifi S
  smart_config_task w = called smartconfig_start (
      called smartconfig_set_type (record w {
        ip4_handlers = suc w.ip4_handlers;
        kept_ip4 = true;
        ssid_handlers = suc w.ssid_handlers;
        kept_ssid = true;
        ack_handlers = suc w.ack_handlers;
        kept_ack = true;
        waiting = suc w.waiting;
      }))

  -- A round of its loop: the wait ends at either bit and clears both, and the task ends after the
  -- second.
  unfoldable pub smart_config_round : Wifi S → Wifi S
  unfolding stop_smart_config_task
  smart_config_round w =
      let b = w.bits in
      let cleared = set_bits (record b { connected = false; esptouch_done = false }) w in
      if b.esptouch_done
      then stop_smart_config_task (record cleared { waiting = w.waiting - 1 })
      else if b.connected
      then cleared
      else w
