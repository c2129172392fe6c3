-- ===== src/Uri.antt =====
-- components/generic_main: uri_decode.c, uri_parse.c, param_parse.c and uri_param.c, which take a
-- request's URI and a form's data apart.
pub mod Decode
pub mod Params
mod Tests
use rigcontrol.Common.{
  ℕ, ◌+◌, ◌-◌, ◌*◌, ◌%◌, Bool, true, false, ◌&&◌, Option, none, some, List, [], ◌∷◌, ◌++◌, Bytes,
  codes, length, ltb, leb, ◌==◌, if◌then◌else◌, str_eq, c_string, index,
}

-- `hexit`; `none` is its -1.
unfoldable pub hexit : ℕ → Option ℕ
hexit c =
    if leb b'0' c && leb c b'9'
    then some (c - b'0')
    else if leb b'a' c && leb c b'f'
    then some (c - b'a' + 10)
    else if leb b'A' c && leb c b'F'
    then some (c - b'A' + 10)
    else none

-- A function's return value, and the bytes that it has stored from the start of its buffer on.
pub record Decoded : Type 0 where
  pub failed : Bool
  pub stored : Bytes

-- `*buffer = '\0'`
unfoldable pub clear_first : Bytes → Bytes
clear_first [] = 0 ∷ []
clear_first (b ∷ bs) = 0 ∷ bs

-- `(first * 10 + second) & 0xff`
abbrev pub escaped : ℕ → ℕ → ℕ
escaped first second = (first * 10 + second) % 256

-- Stores a byte, and fails if the buffer's end is behind it.
abbrev put : ℕ → Bytes → ℕ → (Bytes → Decoded) → Decoded
put size out b go =
    let out' = out ++ b ∷ [] in
    let next = go out' in
    if ltb size (length out') then record { failed = true; stored = out' } else next

-- The loop of `gm_uri_decode`; `out` holds the bytes stored so far. After the string's end both
-- digits are read as -1.
unfoldable pub decode_loop : ℕ → Bytes → Bytes → Decoded
unfolding hexit clear_first
decode_loop size [] out = record { failed = false; stored = out ++ 0 ∷ [] }
decode_loop size (c ∷ []) out =
    if c == b'%'
    then record { failed = true; stored = clear_first out }
    else put size out c (λ out'. record { failed = false; stored = out' ++ 0 ∷ [] })
decode_loop size (c ∷ d ∷ []) out =
    let next = decode_loop size (d ∷ []) in
    if c == b'%' then record { failed = true; stored = clear_first out } else put size out c next
decode_loop size (c ∷ d ∷ e ∷ s) out =
    let plain = decode_loop size (d ∷ e ∷ s) in
    let behind = decode_loop size s in
    if c == b'%'
    then elim (hexit d) [
      | none ↦ record { failed = true; stored = clear_first out }
      | some first ↦ elim (hexit e) [
        | none ↦ record { failed = true; stored = clear_first out }
        | some second ↦ put size out (escaped first second) behind
      ]
    ]
    else put size out c plain

unfoldable pub gm_uri_decode : Bytes → ℕ → Decoded
gm_uri_decode uri size = decode_loop size uri []

-- `gm_param_t`, with the strings that its pointers point to.
abbrev pub Param : Type 0
Param = Bytes × Bytes

-- `gm_param_parse` with its return value (-1 is `true`) and the entries that it stores from the
-- start of the table on. The table's `count` is not looked at, so that entries that it has no place for
-- are stored behind it. The loop runs on fuel.
pub record Parsed : Type 0 where
  pub failed : Bool
  pub entries : List Param

unfoldable pub param_loop : ℕ → Bytes → List Param → Option Parsed
param_loop ℕ.zero s out = none
param_loop (ℕ.suc fuel) s out = elim (index b'=' s) [
  | none ↦ some (record { failed = true; entries = out })
  | some (name, value) ↦ elim (index b'&' value) [
    | none ↦ some (record { failed = false; entries = out ++ (name, value) ∷ [] })
    | some (value', s') ↦ param_loop fuel s' (out ++ (name, value') ∷ [])
  ]
]

unfoldable pub gm_param_parse : Bytes → Option Parsed
unfolding param_loop
gm_param_parse s = param_loop (length s + 1) s []

-- `gm_param`: the value of the first entry of that name.
unfoldable pub gm_param : List Param → Bytes → Option Bytes
gm_param [] name = none
gm_param ((n, v) ∷ ps) name = let rest = gm_param ps name in if str_eq name n then some v else rest

-- What `gm_uri_parse` returns and stores; `uri` is the caller's string, which is cut at the `?`.
pub record UriParse : Type 0 where
  pub failed : Bool
  pub path : Bytes
  pub params : List Param
  pub uri : Bytes

abbrev skip_slash : Bytes → Bytes × Bytes
skip_slash [] = ([], [])
skip_slash (c ∷ s) = if c == b'/' then (c ∷ [], s) else ([], c ∷ s)

unfoldable pub gm_uri_parse : Bytes → Option UriParse
unfolding gm_uri_decode
gm_uri_parse uri =
    let (slash, s) = skip_slash uri in
    let path = c_string (gm_uri_decode s 512).stored in
    elim (index b'?' s) [
      | none ↦ some (record { failed = false; path = path; params = []; uri = uri })
      | some (before, query) ↦ elim (gm_param_parse query) [
        | none ↦ none
        | some parsed ↦ some (record {
          failed = parsed.failed;
          path = path;
          params = parsed.entries;
          uri = slash ++ before;
        })
      ]
    ]
