-- ===== src/Wifi/Restart.antt =====
-- What gm_wifi_restart does from any state.
use rigcontrol.Common.{
  ℕ, ◌∙◌, suc, ◌-◌, ◌≡◌, refl, ap, Bool, true, false, ◌||◌, Option, none, some, Bytes,
  if◌then◌else◌,
}
use rigcontrol.Settings.{Nvs}
use rigcontrol.Wifi.{
  Wifi, called, set_bits, connected_bit, disconnected_bit, wifi_disconnect, smartconfig_stop,
  stop_smart_config_task, unregister_ip4, unregister_ssid, stop_all, wifi_connect_to_ap, is_blank,
}
use rigcontrol.Wifi.Step.{stored_ssid, stored_password, reconnect, gm_wifi_restart}

-- Whether the credentials are good for a restart: a blank password is not.
abbrev pub reconnects : Option Bytes → Option Bytes → Bool
reconnects (some ssid) (some password) = if is_blank ssid || is_blank password then false else true
reconnects _ _ = false

module _ {S : Type 0} (nvs : Nvs S) where
  -- The handlers for IPv4 addresses that are registered once the one that is kept is not.
  abbrev pub orphans : Wifi S → ℕ
  orphans w = if w.kept_ip4 then w.ip4_handlers - 1 else w.ip4_handlers

  -- What a restart leaves: `again` is whether it connected again.
  pub record IsRestarted (again : Bool) (w w' : Wifi S) : Type 0 where
    pub not_connected : w'.bits.connected ≡ false
    pub not_disconnected : w'.bits.disconnected ≡ false
    pub no_task : w'.task_id ≡ false
    pub still_waiting : w'.waiting ≡ w.waiting
    pub kept : w'.kept_ip4 ≡ again
    pub ip4 : w'.ip4_handlers ≡ (if again then suc (orphans w) else orphans w)
    pub more : w'.ip6_handlers ≡ (if again then suc w.ip6_handlers else w.ip6_handlers)

  -- What stopping the smart configuration leaves alone.
  record Keeps (w x : Wifi S) : Type 0 where
    bits : x.bits ≡ w.bits
    no_task : x.task_id ≡ false
    waiting : x.waiting ≡ w.waiting
    ip6 : x.ip6_handlers ≡ w.ip6_handlers

  if-Keeps : (b : Bool) (w x y : Wifi S) → Keeps w x → Keeps w y → Keeps w (if b then x else y)
  if-Keeps true w x y h k = h
  if-Keeps false w x y h k = k

  unregister_ip4-Keeps : (w x : Wifi S) → Keeps w x → Keeps w (unregister_ip4 x)
  unregister_ip4-Keeps w x h =
      if-Keeps x.kept_ip4 w (record x { ip4_handlers = x.ip4_handlers - 1; kept_ip4 = false }) x
        (record { bits = h.bits; no_task = h.no_task; waiting = h.waiting; ip6 = h.ip6 }) h

  unregister_ip4-kept :
      (b : Bool) (x : Wifi S)
      → x.kept_ip4 ≡ b
      → (if b then record x { ip4_handlers = x.ip4_handlers - 1; kept_ip4 = false } else x).kept_ip4
        ≡ false
  unregister_ip4-kept true x e = refl
  unregister_ip4-kept false x e = e

  unregister_ssid-Keeps :
      (b : Bool) (w x : Wifi S)
      → Keeps w x
      → x.kept_ip4 ≡ false
      → Keeps w
          (if b then record x { ssid_handlers = x.ssid_handlers - 1; kept_ssid = false } else x)
        × ((if b
              then record x { ssid_handlers = x.ssid_handlers - 1; kept_ssid = false }
              else x).kept_ip4
            ≡ false)
  unregister_ssid-Keeps true w x h e =
      (record { bits = h.bits; no_task = h.no_task; waiting = h.waiting; ip6 = h.ip6 }, e)
  unregister_ssid-Keeps false w x h e = (h, e)

  unregister_ack-Keeps :
      (b : Bool) (w x : Wifi S)
      → Keeps w x
      → x.kept_ip4 ≡ false
      → Keeps w (if b then record x { ack_handlers = x.ack_handlers - 1; kept_ack = false } else x)
        × ((if b
              then record x { ack_handlers = x.ack_handlers - 1; kept_ack = false }
              else x).kept_ip4
            ≡ false)
  unregister_ack-Keeps true w x h e =
      (record { bits = h.bits; no_task = h.no_task; waiting = h.waiting; ip6 = h.ip6 }, e)
  unregister_ack-Keeps false w x h e = (h, e)

  stop-Keeps :
      (w : Wifi S)
      → Keeps w (stop_smart_config_task w) × ((stop_smart_config_task w).kept_ip4 ≡ false)
  unfolding stop_smart_config_task
  stop-Keeps w =
      let x = called smartconfig_stop (record w { task_id = false }) in
      let h₁ =
        unregister_ip4-Keeps w x
          (record { bits = refl; no_task = refl; waiting = refl; ip6 = refl }) in
      let e₁ = unregister_ip4-kept x.kept_ip4 x refl in
      let (h₂, e₂) =
        unregister_ssid-Keeps (unregister_ip4 x).kept_ssid w (unregister_ip4 x) h₁ e₁ in
      unregister_ack-Keeps (unregister_ssid (unregister_ip4 x)).kept_ack w
        (unregister_ssid (unregister_ip4 x)) h₂ e₂

  unregister_ip4-orphans :
      (b : Bool) (x : Wifi S)
      → (if b
          then record x { ip4_handlers = x.ip4_handlers - 1; kept_ip4 = false }
          else x).ip4_handlers
        ≡ (if b then x.ip4_handlers - 1 else x.ip4_handlers)
  unregister_ip4-orphans true x = refl
  unregister_ip4-orphans false x = refl

  unregister_ssid-ip4_handlers :
      (b : Bool) (x : Wifi S)
      → (if b
          then record x { ssid_handlers = x.ssid_handlers - 1; kept_ssid = false }
          else x).ip4_handlers
        ≡ x.ip4_handlers
  unregister_ssid-ip4_handlers true x = refl
  unregister_ssid-ip4_handlers false x = refl

  unregister_ack-ip4_handlers :
      (b : Bool) (x : Wifi S)
      → (if b
          then record x { ack_handlers = x.ack_handlers - 1; kept_ack = false }
          else x).ip4_handlers
        ≡ x.ip4_handlers
  unregister_ack-ip4_handlers true x = refl
  unregister_ack-ip4_handlers false x = refl

  stop-orphans : (w : Wifi S) → (stop_smart_config_task w).ip4_handlers ≡ orphans w
  unfolding stop_smart_config_task
  stop-orphans w =
      let x = unregister_ip4 (called smartconfig_stop (record w { task_id = false })) in
      unregister_ack-ip4_handlers (unregister_ssid x).kept_ack (unregister_ssid x)
      ∙ unregister_ssid-ip4_handlers x.kept_ssid x
      ∙ unregister_ip4-orphans w.kept_ip4 (called smartconfig_stop (record w { task_id = false }))

  -- The end of the restart, on what the wait has left.
  reconnect-IsRestarted :
      (ssid password : Option Bytes) (w x : Wifi S)
      → x.bits.connected ≡ false
      → x.bits.disconnected ≡ false
      → x.task_id ≡ false
      → x.waiting ≡ w.waiting
      → x.kept_ip4 ≡ false
      → x.ip6_handlers ≡ w.ip6_handlers
      → x.ip4_handlers ≡ orphans w
      → IsRestarted (reconnects ssid password) w (reconnect nvs ssid password x)
  reconnect-IsRestarted none none w x a b c d e f g = record {
    not_connected = a;
    not_disconnected = b;
    no_task = c;
    still_waiting = d;
    kept = e;
    ip4 = g;
    more = f;
  }
  reconnect-IsRestarted none (some password) w x a b c d e f g = record {
    not_connected = a;
    not_disconnected = b;
    no_task = c;
    still_waiting = d;
    kept = e;
    ip4 = g;
    more = f;
  }
  reconnect-IsRestarted (some ssid) none w x a b c d e f g = record {
    not_connected = a;
    not_disconnected = b;
    no_task = c;
    still_waiting = d;
    kept = e;
    ip4 = g;
    more = f;
  }
  reconnect-IsRestarted (some ssid) (some password) w x a b c d e f g =
      go (is_blank ssid || is_blank password)
    where
      go :
          (blank : Bool)
          → IsRestarted
              (if blank then false else true)
              w
              (if blank then x else wifi_connect_to_ap ssid password x)
      go true = record {
        not_connected = a;
        not_disconnected = b;
        no_task = c;
        still_waiting = d;
        kept = e;
        ip4 = g;
        more = f;
      }
      go false = record {
        not_connected = a;
        not_disconnected = b;
        no_task = c;
        still_waiting = d;
        kept = refl;
        ip4 = ap suc g;
        more = ap suc f;
      }

  -- gm_wifi_restart returns from every state. It leaves the station marked neither as connected nor
  -- as disconnected, since it always waits for the disconnection, and that wait clears the mark. The
  -- smart configuration tasks that waited still do. The handler for IPv4 addresses that was kept is
  -- unregistered, and a new one registered and kept exactly if it connects again, which it does not
  -- with a blank password; then there is also one handler for IPv6 addresses more than before.
  -- Handlers for IPv4 addresses that no variable keeps stay registered.
  pub gm_wifi_restart_returns :
      (w : Wifi S)
      → (w' : Wifi S) × (gm_wifi_restart nvs w ≡ some w')
        × IsRestarted (reconnects (stored_ssid nvs w) (stored_password nvs w)) w w'
  unfolding gm_wifi_restart
  gm_wifi_restart_returns w =
      let (h, e) = stop-Keeps w in
      let stopped = stop_all w in
      let marked = set_bits (disconnected_bit true (connected_bit false stopped.bits)) stopped in
      let waited = set_bits (disconnected_bit false marked.bits) (called wifi_disconnect marked) in
      (
        reconnect nvs (stored_ssid nvs w) (stored_password nvs w) waited,
        refl,
        reconnect-IsRestarted (stored_ssid nvs w) (stored_password nvs w) w waited refl refl
            h.no_task h.waiting e h.ip6 (stop-orphans w),
      )
