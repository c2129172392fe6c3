-- ===== src/PublicIp.antt =====
-- components/generic_main/public_ip.c and choose_one.c: the public address, as one of several sites
-- tells it. The parser of JSON is a parameter.
pub mod Found
mod Tests
use rigcontrol.Common.{
  ℕ, zero, suc, ◌+◌, ◌-◌, ◌*◌, ◌%◌, Bool, true, false, Option, none, some, List, [], ◌∷◌, Bytes,
  codes, get_or, take, ◌==◌, if◌then◌else◌,
}
use rigcontrol.WebGet.{Performed, gm_web_get, string_in}

abbrev pub urls : List Bytes
urls =
    codes "https://api.myip.com/"
    ∷ codes "https://api.my-ip.io/ip.json"
    ∷ codes "https://api.ipify.org?format=json"
    ∷ codes "https://www.myexternalip.com/json"
    ∷ codes "https://ip.seeip.org/jsonip?"
    ∷ []

abbrev pub number_of_entries : ℕ
number_of_entries = 5

-- `random` is what getrandom gives.
unfoldable pub gm_choose_one : ℕ → ℕ → ℕ
gm_choose_one random number_of_entries = random % number_of_entries

-- A response, and the string that stood in the buffer on the stack before.
pub record Asked : Type 0 where
  pub before : Bytes
  pub outcome : Performed

-- The loop ends at the first address.
abbrev pub after_try : ℕ → Option Bytes → Option Bytes × ℕ → Option Bytes × ℕ
after_try tries none later = later
after_try tries (some ip) later = (some ip, suc tries)

-- `parse` is cJSON_Parse, and `string_of` the value of a name where it is a string.
module _ {J : Type 0} (parse : Bytes → Option J) (string_of : J → Bytes → Option Bytes) where
  abbrev pub copied : ℕ → Option Bytes → Option Bytes
  copied size none = none
  copied size (some ip) = some (take (size - 1) ip)

  abbrev pub from_json : ℕ → Option J → Option Bytes
  from_json size none = none
  from_json size (some json) = copied size (string_of json (codes "ip"))

  abbrev pub from_response : ℕ → Option ℕ → Bytes → Option Bytes
  from_response size none buffer = none
  from_response size (some status) buffer =
      let address = from_json size (parse buffer) in if status == 200 then address else none

  -- `none` is -1, which leaves `data` as it is.
  unfoldable pub gm_public_ipv4_internal : Asked → ℕ → Option Bytes
  unfolding gm_web_get
  gm_public_ipv4_internal response size =
      let got = gm_web_get response.outcome 1024 in
      from_response size (got.1) (string_in response.before (got.0))

  -- A try has its number, its random number, and the response to the URL that is chosen.
  module _ (random : ℕ → ℕ) (respond : ℕ → Bytes → Asked) where
    abbrev pub url_of : ℕ → Bytes
    unfolding gm_choose_one
    url_of tries = get_or urls (gm_choose_one (random tries) number_of_entries) []

    -- The loop with a number of tries to go; the result, and how many tries were made.
    unfoldable pub try_each : ℕ → ℕ → ℕ → Option Bytes × ℕ
    unfolding gm_public_ipv4_internal url_of
    try_each zero tries size = (none, tries)
    try_each (suc n) tries size =
        after_try tries (gm_public_ipv4_internal (respond tries (url_of tries)) size)
          (try_each n (suc tries) size)

    unfoldable pub gm_public_ipv4 : ℕ → Option Bytes × ℕ
    unfolding try_each
    gm_public_ipv4 size = try_each (number_of_entries * 2) 0 size
