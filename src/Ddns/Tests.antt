-- ===== src/Ddns/Tests.antt =====
-- A station with both addresses, and a store with the settings of he.net.
use rigcontrol.Common.{
  ℕ, ◌<◌, ◌≡◌, ◌↔◌, refl, arith, Bool, true, Option, none, some, List, [], ◌∷◌, ◌++◌, Bytes, codes,
  length, ltb, if◌then◌else◌, str_eq,
}
use rigcontrol.PatternString.{Outcome}
use rigcontrol.AllZeroes.Compare.{Zeroes}
use rigcontrol.Settings.{failed, Nvs}
use rigcontrol.Ddns.{Station, WebGet, gm_ddns}
use rigcontrol.Ddns.Url.{IsConfigured, requests, gm_ddns-requests}

-- A store of three settings, which is only read.
abbrev value_for : Bytes → Bytes
value_for key =
    if str_eq key (codes "ddns_hostname")
    then codes "rig.example"
    else if str_eq key (codes "ddns_password")
    then codes "pw"
    else codes "he.net"

abbrev fitting : Bytes → ℕ → Option Bytes
fitting value size = if ltb (length value) size then some value else none

abbrev memory : Nvs Unit
memory = record {
  nvs_get_str = λ s key size. fitting (value_for key) size;
  nvs_set_str = λ s key value. none;
  nvs_erase_key = λ s key. failed;
}

abbrev station : Station
station = record {
  ipv4_text = λ size. codes "192.0.2.1";
  ipv6_text = λ size. codes "2001:db8::1";
  memory = λ at. 1;
  ipv6_at = 8;
}

-- Requests are recorded, and answered by 200.
abbrev web_get : WebGet (List Outcome)
web_get request w = (w ++ request ∷ [], 200)

fitting-some : (value : Bytes) (size : ℕ) → length value < size → fitting value size ≡ some value
fitting-some value size h = ground arith

configured :
    IsConfigured memory station tt
      (codes "rig.example")
      (codes "pw")
      (codes "192.0.2.1")
      (codes "2001:db8::1")
unfolding str_eq
configured = record {
  provider = λ size h. fitting-some (codes "he.net") size h;
  hostname_stored = λ size h. fitting-some (codes "rig.example") size h;
  password_stored = λ size h. fitting-some (codes "pw") size h;
  ipv4_text = λ size h. refl;
  ipv6_text = λ size h. refl;
  ipv6_aligned = refl;
}

gm_ddns-requests_example :
    (unset : Bool) × ((unset ≡ true) ↔ Zeroes (λ at. 1) 8 16)
    × (gm_ddns memory station tt web_get []
        ≡ some (
          requests web_get
              (codes "rig.example")
              (codes "pw")
              (codes "192.0.2.1")
              (codes "2001:db8::1")
              unset
              [],
          true,
        ))
gm_ddns-requests_example =
    gm_ddns-requests memory station tt (codes "rig.example") (codes "pw") (codes "192.0.2.1")
      (codes "2001:db8::1") configured web_get [] (omega arith) (omega arith)
