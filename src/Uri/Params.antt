-- ===== src/Uri/Params.antt =====
-- URI parameters and form data: what `gm_param_parse` stores and `gm_param` finds there.
use rigcontrol.Common.{
  ℕ, zero, suc, ◌+◌, ◌<◌, ◌≤◌, ◌≡◌, ◌≢◌, refl, sym, ap, ◌∙◌, arith, true, false, some, List, [],
  ◌∷◌, ◌++◌, append_assoc, Bytes, Free, All, length, length-append, Bool-cases, Option-cases, inl,
  inr, index, index-append, index-Free, length-index, str_eq, str_eq_refl, str_eq_iff, c_string,
  c_string-append, All-append,
}
use rigcontrol.Uri.{Decoded, Param, Parsed, param_loop, gm_param_parse, gm_param, gm_uri_parse}
use rigcontrol.Uri.Decode.{Decodes, plain, stop}
use rigcontrol.Uri.Decode.Total.{gm_uri_decode_iff}

-- The form `name=value&name=value...` that a browser sends.
abbrev pub form : Param → List Param → Bytes
form (n, v) [] = n ++ b'=' ∷ v
form (n, v) (p ∷ ps) = n ++ b'=' ∷ (v ++ b'&' ∷ form p ps)

abbrev pub IsParam : Param → Type 0
IsParam (n, v) = Free b'=' n × Free b'&' v

param_loop-form :
    (fuel : ℕ) (p : Param) (ps out : List Param)
    → length ps < fuel
    → IsParam p
    → All IsParam ps
    → param_loop fuel (form p ps) out ≡ some (record { failed = false; entries = out ++ p ∷ ps })
unfolding param_loop
param_loop-form zero p ps out k h hs = absurd (omega arith)
param_loop-form (suc fuel) (n, v) [] out k (hn, hv) hs =
    rw (index-append b'=' n v hn, index-Free b'&' v hv, param_loop) refl
param_loop-form (suc fuel) (n, v) (p ∷ ps) out k (hn, hv) (h, hs) =
    rw
      (
        index-append b'=' n (v ++ b'&' ∷ form p ps) hn,
        index-append b'&' v (form p ps) hv,
        param_loop,
      )
      (param_loop-form fuel p ps (out ++ (n, v) ∷ []) (omega arith) h hs
        ∙ ap (λ es. some (record { failed = false; entries = es }))
            (append_assoc out ((n, v) ∷ []) (p ∷ ps)))

length-form : (p : Param) (ps : List Param) → length ps < length (form p ps)
length-form (n, v) [] = omega (arith, length-append n (b'=' ∷ v))
length-form (n, v) (p ∷ ps) = omega (
  arith,
  length-append n (b'=' ∷ (v ++ b'&' ∷ form p ps)),
  length-append v (b'&' ∷ form p ps),
  length-form p ps,
)

pub gm_param_parse-form :
    (p : Param) (ps : List Param)
    → IsParam p
    → All IsParam ps
    → gm_param_parse (form p ps) ≡ some (record { failed = false; entries = p ∷ ps })
unfolding gm_param_parse
gm_param_parse-form p ps h hs =
    param_loop-form (length (form p ps) + 1) p ps [] (omega (arith, length-form p ps)) h hs

-- The places of gm_uri.params. What is stored beyond them is behind the table.
abbrev pub uri_params : ℕ
uri_params = 10

-- The form of all entries.
abbrev pub form_all : List Param → Bytes
form_all [] = []
form_all (p ∷ ps) = form p ps

-- No entry has this name.
abbrev pub Unnamed : Bytes → List Param → Type 0
Unnamed name = All (λ p. p.0 ≢ name)

gm_param-append :
    (name value : Bytes) (ps qs : List Param)
    → Unnamed name ps
    → gm_param (ps ++ (name, value) ∷ qs) name ≡ some value
unfolding gm_param
gm_param-append name value [] qs h = rw (str_eq_refl name)
gm_param-append name value ((n, v) ∷ ps) qs (ne, h) = elim (Bool-cases (str_eq name n)) [
  | inl e ↦ absurd (ne (sym ((str_eq_iff name n).0 e)))
  | inr e ↦ rw e (gm_param-append name value ps qs h)
]

param_loop_total :
    (fuel : ℕ) (s : Bytes) (out : List Param)
    → length s < fuel
    → (r : Parsed) × (param_loop fuel s out ≡ some r)
unfolding param_loop
param_loop_total zero s out h = absurd (omega arith)
param_loop_total (suc fuel) s out h = elim (Option-cases (index b'=' s)) [
  | inl n ↦ (record { failed = true; entries = out }, rw (n, param_loop))
  | inr ((name, value), m) ↦ elim (Option-cases (index b'&' value)) [
    | inl n ↦
        (record { failed = false; entries = out ++ (name, value) ∷ [] }, rw (m, n, param_loop))
    | inr ((v, s'), k) ↦
        rw (m, k, param_loop)
          (param_loop_total fuel s' (out ++ (name, v) ∷ [])
            (omega (arith, length-index b'=' s name value m, length-index b'&' value v s' k)))
  ]
]

-- `gm_param_parse` returns on every string.
pub gm_param_parse_total : (s : Bytes) → (r : Parsed) × (gm_param_parse s ≡ some r)
unfolding gm_param_parse
gm_param_parse_total s = param_loop_total (length s + 1) s [] (omega arith)

Decodes-self : (s : Bytes) → Free b'%' s → Decodes s s
Decodes-self [] h = stop
Decodes-self (c ∷ s) (p, h) = plain p (Decodes-self s h)

-- A request for `path` with a query, as plain text: no escape, no null, and no more than a path's
-- 512 bytes in all.
pub record IsRequest (path query : Bytes) : Type 0 where
  pub no_question : Free b'?' path
  pub plain_path : Free b'%' path
  pub plain_query : Free b'%' query
  pub path_string : Free 0 path
  pub query_string : Free 0 query
  pub fits : length path + length query < 512

-- A form's data is read back: in what `gm_param_parse` stores, `gm_param` finds under a name the
-- value of the first entry with that name, wherever it stands. Names are free of `=` and values of
-- `&`, and the caller's table has a place for each entry.
pub gm_param-gm_param_parse :
    (ps : List Param) (name value : Bytes) (qs : List Param) (places : ℕ)
    → All IsParam ps
    → IsParam (name, value)
    → All IsParam qs
    → Unnamed name ps
    → length (ps ++ (name, value) ∷ qs) ≤ places
    → (r : Parsed) × (gm_param_parse (form_all (ps ++ (name, value) ∷ qs)) ≡ some r)
      × (r.failed ≡ false)
      × (gm_param r.entries name ≡ some value)
      × (length r.entries ≤ places)
gm_param-gm_param_parse [] name value qs places hs k ks u few = (
  record { failed = false; entries = (name, value) ∷ qs },
  gm_param_parse-form (name, value) qs k ks,
  refl,
  gm_param-append name value [] qs tt,
  few,
)
gm_param-gm_param_parse (p ∷ ps) name value qs places (h, hs) k ks (u, us) few = (
  record { failed = false; entries = p ∷ (ps ++ (name, value) ∷ qs) },
  gm_param_parse-form p (ps ++ (name, value) ∷ qs) h
      (All-append IsParam ps ((name, value) ∷ qs) hs (k, ks)),
  refl,
  gm_param-append name value (p ∷ ps) qs (u, us),
  few,
)

-- A request without a query, as plain text that fits a path.
pub record IsPlain (path : Bytes) : Type 0 where
  pub no_query : Free b'?' path
  pub no_escape : Free b'%' path
  pub no_null : Free 0 path
  pub path_fits : length path < 512

-- A plain request without a query is parsed to its path.
pub gm_uri_parse-plain :
    (path : Bytes)
    → IsPlain path
    → gm_uri_parse (b'/' ∷ path)
      ≡ some (record { failed = false; path = path; params = []; uri = b'/' ∷ path })
unfolding gm_uri_parse
gm_uri_parse-plain path r =
    let whole =
      (gm_uri_decode_iff path path 512).1
        (Decodes-self path r.no_escape, omega (arith, r.path_fits)) in
    rw
      (
        index-Free b'?' path r.no_query,
        ap (λ (d : Decoded). c_string d.stored) whole ∙ c_string-append path [] r.no_null,
        gm_uri_parse,
      )
      refl
