-- ===== src/WebGet.antt =====
-- components/generic_main/web_get.c: the body of a response is gathered in a buffer, piece by piece.
pub mod Gathered
mod Tests
use rigcontrol.Common.{
  ℕ, ◌+◌, ◌-◌, ◌%◌, ◌^◌, Bool, true, false, Option, none, some, List, [], ◌∷◌, ◌++◌, Bytes, length,
  take, ltb, if◌then◌else◌,
}

-- `struct user_data` without a coroutine: `stored` is what was copied to `data`, with a null behind it
-- unless it is empty, and `index` is its length.
pub record UserData : Type 0 where
  pub stored : Bytes
  pub size : ℕ

-- The room before the null; a `size_t`, so it wraps.
abbrev pub room_of : UserData → ℕ
room_of u = (u.size + 2 ^ 32 - length u.stored + 2 ^ 32 - 1) % 2 ^ 32

-- `event_handler` on HTTP_EVENT_ON_DATA.
unfoldable pub on_data : Bytes → UserData → UserData
on_data piece u =
    let size = if ltb (length piece) (room_of u) then length piece else room_of u in
    if ltb 0 size then record u { stored = u.stored ++ take size piece } else u

-- What `esp_http_client_perform` does: it cannot connect, or it delivers the pieces of the body and
-- then fails or has a status.
pub data Performed : Type 0 where
  no_client : Performed
  performed : List Bytes → Option ℕ → Performed

unfoldable pub deliver_pieces : List Bytes → UserData → UserData
unfolding on_data
deliver_pieces [] u = u
deliver_pieces (piece ∷ pieces) u = deliver_pieces pieces (on_data piece u)

-- The status, or `none` for -1, and what is in the buffer.
unfoldable pub gm_web_get_internal : Performed → UserData → UserData × Option ℕ
unfolding deliver_pieces
gm_web_get_internal no_client u = (u, none)
gm_web_get_internal (performed pieces status) u = (deliver_pieces pieces u, status)

unfoldable pub gm_web_get : Performed → ℕ → UserData × Option ℕ
unfolding gm_web_get_internal
gm_web_get response size = gm_web_get_internal response (record { stored = []; size = size })

-- The string in the buffer, where `before` is the one that stood there: where nothing is copied, no
-- null is written either.
abbrev pub held : Bytes → Bytes → Bytes
held before [] = before
held before (c ∷ s) = c ∷ s

abbrev pub string_in : Bytes → UserData → Bytes
string_in before u = held before u.stored

-- With a coroutine each piece is handed on.
unfoldable pub hand_on : {W : Type 0} → (Bytes → W → W) → List Bytes → W → W
hand_on coroutine [] w = w
hand_on coroutine (piece ∷ pieces) w = hand_on coroutine pieces (coroutine piece w)

unfoldable pub gm_web_get_with_coroutine :
    {W : Type 0} → (Bytes → W → W) → Performed → W → W × Option ℕ
unfolding hand_on
gm_web_get_with_coroutine coroutine no_client w = (w, none)
gm_web_get_with_coroutine coroutine (performed pieces status) w =
    (hand_on coroutine pieces w, status)
