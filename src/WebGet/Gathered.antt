-- ===== src/WebGet/Gathered.antt =====
-- The buffer holds as much of the body as it has room for.
use rigcontrol.Common.{
  ℕ, zero, suc, ◌-◌, ◌^◌, ◌<◌, ◌≤◌, ◌≡◌, ◌∙◌, refl, sym, ap, ap₂, inl, inr, arith, Bool, Option,
  List, [], ◌∷◌, ◌++◌, append_assoc, append-nil, Bytes, length, take, length-take, ltb, ltb→lt,
  lt→ltb, if◌then◌else◌, Bool-cases,
}
use rigcontrol.WebGet.{
  UserData, held, string_in, room_of, on_data, performed, deliver_pieces, gm_web_get_internal,
  gm_web_get,
}

abbrev pub body : List Bytes → Bytes
body [] = []
body (piece ∷ pieces) = piece ++ body pieces

take-append : (n : ℕ) (s t : Bytes) → length s ≤ n → take n (s ++ t) ≡ s ++ take (n - length s) t
take-append n [] t h = ap (λ m. take m t) {x = n} {y = n - 0} (omega arith)
take-append zero (c ∷ s) t h = absurd (omega arith)
take-append (suc n) (c ∷ s) t h = ap (◌∷◌ c) (
    take-append n s t (omega arith)
    ∙ ap (λ m. s ++ take m t) {x = n - length s} {y = suc n - suc (length s)} (omega arith))

take_more : (n : ℕ) (s : Bytes) → length s ≤ n → take n s ≡ s
take_more zero [] h = refl
take_more zero (c ∷ s) h = absurd (omega arith)
take_more (suc n) [] h = refl
take_more (suc n) (c ∷ s) h = ap (◌∷◌ c) (take_more n s (omega arith))

-- Of a piece that fits everything is copied.
cut_lem :
    (room : ℕ) (s : Bytes) → take (if ltb (length s) room then length s else room) s ≡ take room s
cut_lem room s = elim (Bool-cases (ltb (length s) room)) [
  | inl e ↦
      let fits = ltb→lt (length s) room e in
      rw e (take_more (length s) s (omega arith) ∙ sym (take_more room s (omega arith)))
  | inr e ↦ rw e refl
]

store_lem :
    (n : ℕ) (piece : Bytes) (u : UserData)
    → (if ltb 0 n then record u { stored = u.stored ++ take n piece } else u).stored
      ≡ u.stored ++ take n piece
store_lem zero piece u = sym (append-nil u.stored)
store_lem (suc n) piece u =
    ap
      (λ (b : Bool). (if b then record u { stored = u.stored ++ take (suc n) piece } else u).stored)
      (lt→ltb 0 (suc n) (omega arith))

-- A piece is cut to the room before the null.
on_data_lem :
    (piece : Bytes) (u : UserData)
    → length u.stored < u.size
    → u.size < 2 ^ 32
    → (on_data piece u).stored ≡ take (u.size - 1) (u.stored ++ piece)
unfolding on_data
on_data_lem piece u h k =
    let room : room_of u ≡ u.size - 1 - length u.stored = omega arith in
    store_lem (if ltb (length piece) (room_of u) then length piece else room_of u) piece u
    ∙ ap (◌++◌ u.stored) (cut_lem (room_of u) piece ∙ ap (λ r. take r piece) room)
    ∙ sym (take-append (u.size - 1) u.stored piece (omega arith))

on_data-size : (piece : Bytes) (u : UserData) → (on_data piece u).size ≡ u.size
unfolding on_data
on_data-size piece u =
    elim (Bool-cases (ltb 0 (if ltb (length piece) (room_of u) then length piece else room_of u))) [
      | inl e ↦ rw e refl
      | inr e ↦ rw e refl
    ]

take-take_append : (n : ℕ) (s t : Bytes) → take n (take n s ++ t) ≡ take n (s ++ t)
take-take_append zero s t = refl
take-take_append (suc n) [] t = refl
take-take_append (suc n) (c ∷ s) t = ap (◌∷◌ c) (take-take_append n s t)

deliver_pieces-body :
    (pieces : List Bytes) (u : UserData)
    → length u.stored < u.size
    → u.size < 2 ^ 32
    → (deliver_pieces pieces u).stored ≡ take (u.size - 1) (u.stored ++ body pieces)
unfolding deliver_pieces
deliver_pieces-body [] u h k =
    sym
      (ap (take (u.size - 1)) (append-nil u.stored) ∙ take_more (u.size - 1) u.stored (omega arith))
deliver_pieces-body (piece ∷ pieces) u h k =
    let room = u.size - 1 in
    let size = on_data-size piece u in
    let stored = on_data_lem piece u h k in
    let fits : length (on_data piece u).stored < (on_data piece u).size =
      omega (arith, ap length stored, length-take (u.size - 1) (u.stored ++ piece), size) in
    deliver_pieces-body pieces (on_data piece u) fits (omega (arith, size))
    ∙ ap₂ (λ n t. take (n - 1) (t ++ body pieces)) size stored
    ∙ take-take_append (u.size - 1) (u.stored ++ piece) (body pieces)
    ∙ ap (take (u.size - 1)) (append_assoc u.stored piece (body pieces))

-- The string in the buffer is the beginning of the body that fits before the null, in whatever pieces
-- the body came, and so never more than its size, or, where that is empty, the string that stood there
-- before; the status is the one of the response. The buffer has at least one byte.
pub gm_web_get-body :
    (pieces : List Bytes) (status : Option ℕ) (size : ℕ) (before : Bytes)
    → 0 < size
    → size < 2 ^ 32
    → (string_in before (gm_web_get (performed pieces status) size).0
        ≡ held before (take (size - 1) (body pieces)))
      × (length (gm_web_get (performed pieces status) size).0.stored < size)
      × ((gm_web_get (performed pieces status) size).1 ≡ status)
unfolding gm_web_get gm_web_get_internal
gm_web_get-body pieces status size before h k =
    let gathered = deliver_pieces-body pieces (record { stored = []; size = size }) h k in
    (
      ap (held before) gathered,
      omega (arith, ap length gathered, length-take (size - 1) (body pieces)),
      refl,
    )
