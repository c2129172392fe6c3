-- ===== src/Uri/Tests.antt =====
-- Runs of the URI code, and its theorems at concrete inputs.
use rigcontrol.Common.{
  ℕ, ◌≤◌, ◌≡◌, ◌↔◌, refl, ap, arith, true, false, some, [], ◌∷◌, codes, length, index,
}
use rigcontrol.Uri.{Param, decode_loop, param_loop, Parsed, gm_uri_decode, gm_param_parse, gm_param}
use rigcontrol.Uri.Decode.{accept, Decodes}
use rigcontrol.Uri.Decode.Total.{gm_uri_decode_iff}
use rigcontrol.Uri.Params.{gm_param-gm_param_parse}

decode_space : gm_uri_decode (codes "a%20b") 8 ≡ accept (b'a' ∷ 20 ∷ b'b' ∷ [])
unfolding gm_uri_decode decode_loop
decode_space = refl

decode_cut : (gm_uri_decode (codes "ab%2") 8).failed ≡ true
unfolding gm_uri_decode decode_loop
decode_cut = refl

parse_stops :
    gm_param_parse (codes "a=1&b")
    ≡ some (record { failed = true; entries = (codes "a", codes "1") ∷ [] })
unfolding gm_param_parse param_loop index
parse_stops = refl

abbrev name_param : Param
name_param = (codes "name", codes "ssid")

abbrev value_param : Param
value_param = (codes "value", codes "shack")

differ : ◌≡◌ {A = ℕ} 4 5 → ⊥
differ e = absurd (omega arith)

gm_param-gm_param_parse_example :
    (r : Parsed) × (gm_param_parse (codes "name=ssid&value=shack") ≡ some r)
    × (r.failed ≡ false)
    × (gm_param r.entries (codes "value") ≡ some (codes "shack"))
    × (length r.entries ≤ 2)
gm_param-gm_param_parse_example =
    gm_param-gm_param_parse (name_param ∷ []) (codes "value") (codes "shack") [] 2 (omega arith, tt)
      (omega arith) tt ((λ e. differ (ap length e)), tt) (omega arith)

gm_uri_decode_iff_example :
    (gm_uri_decode (codes "ok") 2 ≡ accept (codes "ok"))
    ↔ (Decodes (codes "ok") (codes "ok") × (2 ≤ 2))
gm_uri_decode_iff_example = gm_uri_decode_iff (codes "ok") (codes "ok") 2
