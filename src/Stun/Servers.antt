-- ===== src/Stun/Servers.antt =====
-- stun.c: the servers, one of which is asked at random, and the packet that it is sent.
use rigcontrol.Common.{
  ℕ, zero, suc, ◌*◌, ◌%◌, ◌<◌, ◌≡◌, refl, arith, Bool, true, false, Option, some, List, [], ◌∷◌,
  ◌++◌, Bytes, codes, length, get_elem?, bit_and, bit_or, le32, if◌then◌else◌,
}
use rigcontrol.PortControl.{htons}
use rigcontrol.PublicIp.{gm_choose_one}
use rigcontrol.Stun.{stun_magic}

-- `struct stun_server`
pub record StunServer : Type 0 where
  pub host : Bytes
  pub port : ℕ

abbrev pub server_at : Bytes → ℕ → StunServer
server_at host port = record { host = host; port = port }

abbrev pub ipv4_servers : List StunServer
ipv4_servers =
    server_at (codes "stun.ooma.com") 3478
    ∷ server_at (codes "stun.l.google.com") 19302
    ∷ server_at (codes "stun2.l.google.com") 19302
    ∷ server_at (codes "stun3.l.google.com") 19302
    ∷ server_at (codes "stun4.l.google.com") 19302
    ∷ server_at (codes "openrelay.metered.ca") 80
    ∷ []

abbrev pub ipv6_servers : List StunServer
ipv6_servers =
    server_at (codes "stun.l.google.com") 19302
    ∷ server_at (codes "stun2.l.google.com") 19302
    ∷ server_at (codes "stun3.l.google.com") 19302
    ∷ server_at (codes "stun4.l.google.com") 19302
    ∷ []

abbrev pub servers : Bool → List StunServer
servers ipv6 = if ipv6 then ipv6_servers else ipv4_servers

-- The server that a request goes to, where `random` is what getrandom gives.
unfoldable pub chosen_server : Bool → ℕ → Option StunServer
unfolding gm_choose_one
chosen_server ipv6 random = get_elem? (servers ipv6) (gm_choose_one random (length (servers ipv6)))

abbrev pub stun_request : ℕ
stun_request = 0

abbrev pub stun_binding : ℕ
stun_binding = 1

-- The class and the method, interleaved.
abbrev pub message_type : ℕ → ℕ → ℕ
message_type message_class method = htons (
    bit_or (bit_or (bit_and message_class 1 * 16) (bit_and message_class 2 * 256))
      (bit_and method 0xf))

-- The bytes of the request: the type and the length share a word, and the words lie in memory with
-- the lowest byte first.
unfoldable pub request_bytes : Bytes → Bytes
request_bytes transaction_id =
    le32 (message_type stun_request stun_binding) ++ (le32 stun_magic ++ transaction_id)

get_elem?-lt :
    {A : Type 0} (xs : List A) (i : ℕ) → i < length xs → (x : A) × (get_elem? xs i ≡ some x)
get_elem?-lt [] i h = absurd (omega (arith, h))
get_elem?-lt (x ∷ xs) zero h = (x, refl)
get_elem?-lt (x ∷ xs) (suc i) h = get_elem?-lt xs i (omega (arith, h))

-- Whatever the random number, a server of the table of the family is asked, and the request is the
-- binding request of RFC 5389 in network byte order: the type 1, the length 0, the magic cookie
-- 2112a442 and the transaction's id.
pub request_bytes-chosen_server :
    (ipv6 : Bool) (random : ℕ) (transaction_id : Bytes)
    → ((server : StunServer) × (chosen_server ipv6 random ≡ some server))
      × (request_bytes transaction_id
          ≡ 0x00 ∷ 0x01 ∷ 0x00 ∷ 0x00 ∷ 0x21 ∷ 0x12 ∷ 0xa4 ∷ 0x42 ∷ transaction_id)
unfolding chosen_server gm_choose_one request_bytes
request_bytes-chosen_server true random transaction_id =
    (get_elem?-lt ipv6_servers (random % 4) (omega arith), refl)
request_bytes-chosen_server false random transaction_id =
    (get_elem?-lt ipv4_servers (random % 6) (omega arith), refl)
