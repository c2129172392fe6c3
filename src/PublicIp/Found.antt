-- ===== src/PublicIp/Found.antt =====
-- The first site that answers tells the address.
use rigcontrol.Common.{
  ℕ, suc, ◌-◌, ◌%◌, get_or, [], ◌≤◌, ◌<◌, ◌≡◌, Option, none, some, List, Bytes, codes, take,
}
use rigcontrol.WebGet.{performed, held}
use rigcontrol.WebGet.Gathered.{body}
use rigcontrol.PublicIp.{urls, Asked}

module _ {J : Type 0} (parse : Bytes → Option J) (string_of : J → Bytes → Option Bytes) where
  -- A response with status 200 whose body, as far as the buffer holds it, is JSON with a string named
  -- ip; the address is that string as far as it fits.
  pub record Tells (size : ℕ) (response : Asked) (address : Bytes) : Type 0 where
    pub pieces : List Bytes
    pub json : J
    pub ip : Bytes
    pub succeeds : response.outcome ≡ performed pieces (some 200)
    pub is_json : parse (held response.before (take 1023 (body pieces))) ≡ some json
    pub is_string : string_of json (codes "ip") ≡ some ip
    pub fits : address ≡ take (size - 1) ip

  abbrev gives : Bytes → List Bytes → Option ℕ → Asked
  gives before pieces status = record { before = before; outcome = performed pieces status }

  module _ (random : ℕ → ℕ) (respond : ℕ → Bytes → Asked) (size : ℕ) where
    -- The response of a try: the random number, divided by the five sites, leaves the site's number.
    abbrev pub answer : ℕ → Asked
    answer tries = respond tries (get_or urls (random tries % 5) [])

    -- No answer tells an address, from one try up to another.
    abbrev pub AreSilent : ℕ → ℕ → Type 0
    AreSilent from to =
        (j : ℕ) → from ≤ j → j < to → (other : Bytes) → ¬ Tells size (answer j) other

    -- What the loop comes to from a try up to another one: the address that the first answer tells
    -- and the number of tries, or nothing.
    pub data Ends (from to : ℕ) (result : Option Bytes) (made : ℕ) : Type 0 where
      told :
          (k : ℕ) (address : Bytes)
          → from ≤ k
          → k < to
          → AreSilent from k
          → Tells size (answer k) address
          → result ≡ some address
          → made ≡ suc k
          → Ends from to result made
      silent : AreSilent from to → result ≡ none → made ≡ to → Ends from to result made
