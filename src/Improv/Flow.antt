-- ===== src/Improv/Flow.antt =====
-- The order of the packets of an Improv session, from the credentials to the connection.
use rigcontrol.Common.{
  ◌≤◌, ltb, ◌||◌, Bool-cases, inl, inr, ℕ, zero, suc, ◌+◌, ◌%◌, ◌<◌, ◌≡◌, refl, ap, ◌∙◌, arith,
  Bool, false, ◌&&◌, [], ◌∷◌, ◌++◌, append-nil, ap₂, Bytes, codes, length, drop, c_string, Free,
  c_string-Free, take-length_append,
}
use rigcontrol.Improv.{ImprovError, improv_encode_string, improv_decode_string}
use rigcontrol.Improv.ImprovState.{ready, provisioning, provisioned}
use rigcontrol.Improv.Session.{
  Environment, Device, current_state_packet, improv_report_url, matches_old, set_credentials,
  improv_set_wifi, decoded_into_buffers, wifi_event_sta_got_ip4, wifi_event_sta_disconnected,
  improv_send_current_state, improv_process,
}

drop-length_append : (xs ys : Bytes) (n : ℕ) → n ≡ length xs → drop n (xs ++ ys) ≡ ys
drop-length_append [] ys zero e = refl
drop-length_append [] ys (suc n) e = absurd (omega arith)
drop-length_append (x ∷ xs) ys zero e = absurd (omega arith)
drop-length_append (x ∷ xs) ys (suc n) e = drop-length_append xs ys n (omega arith)

-- A string that `improv_encode_string` wrote is decoded with the number of its bytes consumed.
pub improv_decode_string-improv_encode_string :
    (s rest : Bytes)
    → length s < 256
    → (improv_decode_string (improv_encode_string s ++ rest) ≡ (s, length s + 1))
      × (drop (length s + 1) (improv_encode_string s ++ rest) ≡ rest)
unfolding improv_decode_string improv_encode_string
improv_decode_string-improv_encode_string s rest h =
    let e : length s % 256 ≡ length s = omega arith in
    let n : length s + 1 ≡ suc (length s) = omega arith in
    (
      rw (e, take-length_append s rest (length s) refl) refl,
      rw n (drop-length_append s rest (length s) refl),
    )

-- Two strings that C can hold and that fit the buffers for them.
pub record AreStrings (ssid password : Bytes) : Type 0 where
  pub ssid_length : length ssid ≤ 32
  pub password_length : length password ≤ 64
  pub ssid_string : Free 0 ssid
  pub password_string : Free 0 password

-- The data of a Send WiFi Settings command.
abbrev pub settings : Bytes → Bytes → Bytes → Bytes
settings ssid password rest = improv_encode_string ssid ++ (improv_encode_string password ++ rest)

-- The credentials are already in use.
abbrev pub already : Environment → Bytes → Bytes → Bool
already env ssid password =
    env.is_connected
    && (matches_old env ssid env.old_ssid && matches_old env password env.old_password)

module _ (env : Environment) (d : Device) (ssid password rest : Bytes) where
  improv_set_wifi_lem :
      (bytes : Bytes)
      → improv_set_wifi env d bytes
        ≡ set_credentials env
            (decoded_into_buffers env d
              (improv_decode_string bytes).0
              (improv_decode_string (drop (improv_decode_string bytes).1 bytes)).0)
            (c_string (improv_decode_string bytes).0)
            (c_string (improv_decode_string (drop (improv_decode_string bytes).1 bytes)).0)
  unfolding improv_set_wifi
  improv_set_wifi_lem bytes = refl

  fitting : AreStrings ssid password → decoded_into_buffers env d ssid password ≡ d
  fitting s =
      let short : (ltb 32 (length ssid) || ltb 64 (length password)) ≡ false =
        ground (arith, s.ssid_length, s.password_length) in
      elim (Bool-cases d.is_overrun) [ inl e ↦ rw (short, e) refl | inr e ↦ rw (short, e) refl ]

  improv_set_wifi-settings :
      AreStrings ssid password
      → improv_set_wifi env d (settings ssid password rest) ≡ set_credentials env d ssid password
  improv_set_wifi-settings s =
      let tail = improv_encode_string password ++ rest in
      let (first, behind) =
        improv_decode_string-improv_encode_string ssid tail (omega (arith, s.ssid_length)) in
      let (second, _) =
        improv_decode_string-improv_encode_string password rest
          (omega (arith, s.password_length)) in
      let used : drop (improv_decode_string (settings ssid password rest)).1
            (settings ssid password rest)
          ≡ tail =
        ap (λ r. drop r.1 (settings ssid password rest)) first ∙ behind in
      improv_set_wifi_lem (settings ssid password rest)
      ∙ ap₂
          (λ (a : Bytes × ℕ) (b : Bytes × ℕ).
            set_credentials env (decoded_into_buffers env d a.0 b.0) (c_string a.0) (c_string b.0))
          first (ap improv_decode_string used ∙ second)
      ∙ ap (λ x. set_credentials env x (c_string ssid) (c_string password)) (fitting s)
      ∙ ap₂ (set_credentials env d) (c_string-Free ssid s.ssid_string)
          (c_string-Free password s.password_string)

  set_credentials-new :
      already env ssid password ≡ false
      → let d' = set_credentials env d ssid password in
        (d'.state ≡ provisioning)
        × (d'.sent ≡ d.sent ++ current_state_packet env provisioning)
        × (d'.nonvolatile_sets
            ≡ d.nonvolatile_sets ++ (codes "ssid", ssid) ∷ (codes "wifi_password", password) ∷ [])
        × (d'.is_overrun ≡ d.is_overrun)
  unfolding improv_send_current_state
  set_credentials-new h = rw h (refl, rw append-nil, refl, refl)

-- A Send WiFi Settings command with credentials that are not already in use stores exactly them
-- and goes to Provisioning with one state packet; the address that then arrives sends the state
-- Provisioned and the URL of that address, and a disconnection instead sends the state Ready.
-- The strings have no null byte, at most 32 bytes for the SSID and 64 for the password, and nothing is
-- written behind the buffers for them.
pub improv_process-settings :
    (env : Environment) (d : Device) (ssid password rest : Bytes) (n addr : ℕ)
    → AreStrings ssid password
    → already env ssid password ≡ false
    → let (d', e) = improv_process env d (1 ∷ n ∷ settings ssid password rest) 3 in
      let up = wifi_event_sta_got_ip4 env d' addr in
      let down = wifi_event_sta_disconnected env d' in
      (e ≡ ImprovError.no_error)
      × (d'.is_overrun ≡ d.is_overrun)
      × (d'.state ≡ provisioning)
      × (d'.nonvolatile_sets
          ≡ d.nonvolatile_sets ++ (codes "ssid", ssid) ∷ (codes "wifi_password", password) ∷ [])
      × (d'.sent ≡ d.sent ++ current_state_packet env provisioning)
      × (up.state ≡ provisioned)
      × (up.sent
          ≡ (d.sent ++ current_state_packet env provisioning)
            ++ (current_state_packet env provisioned ++ improv_report_url env addr))
      × (down.state ≡ ready)
      × (down.sent
          ≡ (d.sent ++ current_state_packet env provisioning) ++ current_state_packet env ready)
unfolding improv_process wifi_event_sta_got_ip4 wifi_event_sta_disconnected
improv_process-settings env d ssid password rest n addr s h =
    let same = improv_set_wifi-settings env d ssid password rest s in
    let (st, out, nv, over) = set_credentials-new env d ssid password rest h in
    (
      refl,
      ap (λ (x : Device). x.is_overrun) same ∙ over,
      ap (λ (x : Device). x.state) same ∙ st,
      ap (λ (x : Device). x.nonvolatile_sets) same ∙ nv,
      ap (λ (x : Device). x.sent) same ∙ out,
      refl,
      ap (λ bytes. bytes ++ (current_state_packet env provisioned ++ improv_report_url env addr))
          (ap (λ (x : Device). x.sent) same ∙ out),
      refl,
      ap₂ ◌++◌ (ap (λ (x : Device). x.sent) same ∙ out)
          (append-nil (current_state_packet env ready)),
    )
