-- ===== src/Wifi/Sound.antt =====
-- What each operation on the station keeps.
use rigcontrol.Common.{
  ℕ, zero, suc, ◌-◌, ◌<◌, ◌≡◌, refl, ap, arith, Bool, true, false, ◌&&◌, Option, none, some, Bytes,
  if◌then◌else◌,
}
use rigcontrol.Wifi.{
  Bits, Call, smartconfig_stop, wifi_disconnect, Wifi, called, set_bits, disconnected_bit,
  gm_wifi_is_connected, gm_wifi_wait_until_disconnected, wifi_connect_to_ap, unregister_ip4,
  unregister_ssid, unregister_ack, stop_smart_config_task, stop_all, disconnect,
  ip_event_sta_got_ip4, smart_config_task, smart_config_round,
}
use rigcontrol.Wifi.Step.{times}

-- An instance that is kept in a variable is registered.
abbrev pub IsKept : Bool → ℕ → Type 0
IsKept kept handlers = kept ≡ true → 0 < handlers

pub none-IsKept : (handlers : ℕ) → IsKept false handlers
none-IsKept handlers e = cc

module _ {S : Type 0} where
  -- The station is not both connected and disconnected, and what it would unregister is registered.
  pub record IsSound (w : Wifi S) : Type 0 where
    pub one : (w.bits.connected && w.bits.disconnected) ≡ false
    pub ip4 : IsKept w.kept_ip4 w.ip4_handlers
    pub ssid : IsKept w.kept_ssid w.ssid_handlers
    pub ack : IsKept w.kept_ack w.ack_handlers
    pub same : w.connected_handlers ≡ w.ip6_handlers

  called-IsSound : (c : Call) (w : Wifi S) → IsSound w → IsSound (called c w)
  called-IsSound c w h = record {
    one = h.one;
    ip4 = h.ip4;
    ssid = h.ssid;
    ack = h.ack;
    same = h.same;
  }

  pub bits-IsSound :
      (b : Bits) (w : Wifi S)
      → (b.connected && b.disconnected) ≡ false
      → IsSound w
      → IsSound (set_bits b w)
  bits-IsSound b w e h = record { one = e; ip4 = h.ip4; ssid = h.ssid; ack = h.ack; same = h.same }

  pub connect-IsSound :
      (ssid password : Bytes) (w : Wifi S)
      → IsSound w
      → IsSound (wifi_connect_to_ap ssid password w)
  connect-IsSound ssid password w h = record {
    one = h.one;
    ip4 = λ e. omega arith;
    ssid = h.ssid;
    ack = h.ack;
    same = ap suc h.same;
  }

  pub if-IsSound : (b : Bool) (v w : Wifi S) → IsSound v → IsSound w → IsSound (if b then v else w)
  if-IsSound true v w h k = h
  if-IsSound false v w h k = k

  stop-IsSound : (w : Wifi S) → IsSound w → IsSound (stop_smart_config_task w)
  unfolding stop_smart_config_task
  stop-IsSound w h =
      let stopped = called smartconfig_stop (record w { task_id = false }) in
      let after_ip4 = unregister_ip4 stopped in
      let after_ssid = unregister_ssid after_ip4 in
      let a =
        ip4_lem stopped
          (record { one = h.one; ip4 = h.ip4; ssid = h.ssid; ack = h.ack; same = h.same }) in
      ack_lem after_ssid (ssid_lem after_ip4 a)
    where
      ip4_lem : (x : Wifi S) → IsSound x → IsSound (unregister_ip4 x)
      ip4_lem x k =
          if-IsSound x.kept_ip4 (record x { ip4_handlers = x.ip4_handlers - 1; kept_ip4 = false }) x
            (record {
              one = k.one;
              ip4 = none-IsKept (x.ip4_handlers - 1);
              ssid = k.ssid;
              ack = k.ack;
              same = k.same;
            })
            k

      ssid_lem : (x : Wifi S) → IsSound x → IsSound (unregister_ssid x)
      ssid_lem x k =
          if-IsSound x.kept_ssid
            (record x { ssid_handlers = x.ssid_handlers - 1; kept_ssid = false }) x
            (record {
              one = k.one;
              ip4 = k.ip4;
              ssid = none-IsKept (x.ssid_handlers - 1);
              ack = k.ack;
              same = k.same;
            })
            k

      ack_lem : (x : Wifi S) → IsSound x → IsSound (unregister_ack x)
      ack_lem x k =
          if-IsSound x.kept_ack (record x { ack_handlers = x.ack_handlers - 1; kept_ack = false }) x
            (record {
              one = k.one;
              ip4 = k.ip4;
              ssid = k.ssid;
              ack = none-IsKept (x.ack_handlers - 1);
              same = k.same;
            })
            k

  -- The same of a result, if there is one.
  abbrev pub IsSoundIf : Option (Wifi S) → Type 0
  IsSoundIf none = Unit
  IsSoundIf (some w) = IsSound w

  pub if-IsSoundIf :
      (b : Bool) (v w : Option (Wifi S))
      → IsSoundIf v
      → IsSoundIf w
      → IsSoundIf (if b then v else w)
  if-IsSoundIf true v w h k = h
  if-IsSoundIf false v w h k = k

  pub bind-IsSoundIf :
      (o : Option (Wifi S)) (f : Wifi S → Option (Wifi S))
      → IsSoundIf o
      → ((v : Wifi S) → IsSound v → IsSoundIf (f v))
      → IsSoundIf (elim o [ none ↦ none | some v ↦ f v ])
  bind-IsSoundIf none f h k = tt
  bind-IsSoundIf (some v) f h k = k v h

  pub disconnect-IsSoundIf : (w : Wifi S) → IsSound w → IsSoundIf (disconnect w)
  disconnect-IsSoundIf w h =
      let clear = and_false w.bits.connected in
      if-IsSoundIf (gm_wifi_is_connected w)
        (gm_wifi_wait_until_disconnected (called wifi_disconnect w)) (some w)
        (if-IsSoundIf w.bits.disconnected
          (some (set_bits (disconnected_bit false w.bits) (called wifi_disconnect w))) none
          (bits-IsSound (disconnected_bit false w.bits) (called wifi_disconnect w) clear
            (called-IsSound wifi_disconnect w h))
          tt)
        h
    where
      and_false : (b : Bool) → (b && false) ≡ false
      and_false true = refl
      and_false false = refl

  pub task-IsSound : (w : Wifi S) → IsSound w → IsSound (smart_config_task w)
  task-IsSound w h = record {
    one = h.one;
    ip4 = λ e. omega arith;
    ssid = λ e. omega arith;
    ack = λ e. omega arith;
    same = h.same;
  }

  pub round-IsSound : (w : Wifi S) → IsSound w → IsSound (smart_config_round w)
  unfolding smart_config_round
  round-IsSound w h =
      let cleared : Bits = record {
        connected = false;
        disconnected = w.bits.disconnected;
        station_ready = w.bits.station_ready;
        esptouch_done = false;
      } in
      let sound : IsSound (set_bits cleared w) = bits-IsSound cleared w refl h in
      if-IsSound w.bits.esptouch_done
        (stop_smart_config_task (record w { bits = cleared; waiting = w.waiting - 1 }))
        (if w.bits.connected then set_bits cleared w else w)
        (stop-IsSound (record w { bits = cleared; waiting = w.waiting - 1 })
          (record { one = refl; ip4 = h.ip4; ssid = h.ssid; ack = h.ack; same = h.same }))
        (if-IsSound w.bits.connected (set_bits cleared w) w sound h)

  -- What is called for each instance preserves it if one call does.
  pub times-IsSoundIf :
      (n : ℕ) (f : Wifi S → Option (Wifi S)) (w : Wifi S)
      → ((v : Wifi S) → IsSound v → IsSoundIf (f v))
      → IsSound w
      → IsSoundIf (times n f w)
  times-IsSoundIf zero f w k h = h
  times-IsSoundIf (suc n) f w k h =
      bind-IsSoundIf (f w) (times n f) (k w h) (λ v s. times-IsSoundIf n f v k s)

  pub got_ip4-IsSound : (w : Wifi S) → IsSound w → IsSound (ip_event_sta_got_ip4 w)
  unfolding ip_event_sta_got_ip4
  got_ip4-IsSound w h = record {
    one = refl;
    ip4 = h.ip4;
    ssid = h.ssid;
    ack = h.ack;
    same = h.same;
  }

  pub stop_all-IsSound : (w : Wifi S) → IsSound w → IsSound (stop_all w)
  stop_all-IsSound w h =
      let s = stop-IsSound w h in
      record { one = s.one; ip4 = s.ip4; ssid = s.ssid; ack = s.ack; same = s.same }
