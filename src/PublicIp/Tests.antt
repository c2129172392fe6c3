-- ===== src/PublicIp/Tests.antt =====
-- The first try fails, and the second one finds an address; JSON is text of one letter before the
-- address.
use rigcontrol.Common.{ℕ, zero, suc, ◌≡◌, refl, Option, none, some, [], ◌∷◌, Bytes, codes}
use rigcontrol.WebGet.{
  no_client, performed, gm_web_get, gm_web_get_internal, deliver_pieces, on_data,
}
use rigcontrol.PublicIp.{Asked, gm_choose_one, gm_public_ipv4_internal, try_each, gm_public_ipv4}

abbrev parse : Bytes → Option Bytes
parse [] = none
parse (c ∷ s) = some s

abbrev string_of : Bytes → Bytes → Option Bytes
string_of json name = some json

abbrev respond : ℕ → Bytes → Asked
respond zero url = record { before = []; outcome = no_client }
respond (suc n) url = record {
  before = [];
  outcome = performed (codes "{10.0" ∷ codes ".0.1" ∷ []) (some 200);
}

abbrev random : ℕ → ℕ
random n = 7

asked : gm_public_ipv4 parse string_of random respond 128 ≡ (some (codes "10.0.0.1"), 2)
unfolding gm_public_ipv4 try_each gm_public_ipv4_internal gm_choose_one gm_web_get
    gm_web_get_internal deliver_pieces on_data
asked = refl
