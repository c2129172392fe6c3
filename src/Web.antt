-- ===== src/Web.antt =====
-- components/generic_main/web_handlers.c: handlers are registered by method and name, and the first
-- of a name answers a request.
pub mod Dispatch
mod Tests
use rigcontrol.Common.{
  ℕ, suc, Bool, true, false, Option, none, some, List, [], ◌∷◌, ◌++◌, Bytes, ◌==◌, if◌then◌else◌,
  str_eq,
}
use rigcontrol.Uri.{Param, UriParse, gm_uri_parse}

-- `gm_web_method`
pub data WebMethod : Type 0 where
  get put post : WebMethod

-- `gm_web_handler_t`: the function acts on the rest of the program and returns an int, 0 for success.
pub record Handler (W : Type 0) : Type 0 where
  pub name : Bytes
  pub handler : UriParse → W → W × ℕ

-- `handlers`: each list runs along the `next` pointers, and `last` points behind its end.
pub record Handlers (W : Type 0) : Type 0 where
  pub gets : List (Handler W)
  pub puts : List (Handler W)
  pub posts : List (Handler W)

-- `esp_err_t`, as the functions return it.
pub data EspErr : Type 0 where
  esp_ok esp_fail esp_err_invalid_arg : EspErr

abbrev pub without_slash : Bytes → Bytes
without_slash [] = []
without_slash (c ∷ s) = if c == b'/' then s else c ∷ s

-- The URI is parsed twice: the second time there is no query left, so it succeeds, decodes the
-- path without the query, and leaves the parameters of the first time in place.
abbrev pub again : UriParse → UriParse → UriParse
again first second = record second { params = first.params }

module _ {W : Type 0} where
  abbrev pub of_method : WebMethod → Handlers W → List (Handler W)
  of_method WebMethod.get t = t.gets
  of_method WebMethod.put t = t.puts
  of_method WebMethod.post t = t.posts

  unfoldable pub gm_web_handler_register : Handler W → WebMethod → Handlers W → Handlers W
  gm_web_handler_register h WebMethod.get t = record t { gets = t.gets ++ h ∷ [] }
  gm_web_handler_register h WebMethod.put t = record t { puts = t.puts ++ h ∷ [] }
  gm_web_handler_register h WebMethod.post t = record t { posts = t.posts ++ h ∷ [] }

  -- The loop along the list.
  unfoldable pub run_list : List (Handler W) → Bytes → UriParse → W → W × ℕ
  unfolding str_eq
  run_list [] path uri w = (w, 1)
  run_list (h ∷ hs) path uri w =
      let rest = run_list hs path uri w in if str_eq h.name path then h.handler uri w else rest

  -- `request_uri` is the request's own string, which `gm_uri_parse` has cut at the `?`.
  unfoldable pub gm_web_handler_run : Handlers W → Bytes → UriParse → WebMethod → W → W × ℕ
  unfolding run_list
  gm_web_handler_run t request_uri uri method w =
      run_list (of_method method t) (without_slash request_uri) uri w

  abbrev pub esp_result : W × ℕ → W × EspErr
  esp_result (w, status) = if status == 0 then (w, EspErr.esp_ok) else (w, EspErr.esp_fail)

  -- `none` is a parse that runs out of fuel.
  unfoldable pub run_post_handlers : Handlers W → Bytes → W → Option (W × EspErr)
  unfolding gm_web_handler_run gm_uri_parse
  run_post_handlers t request_uri w = elim (gm_uri_parse request_uri) [
    | none ↦ none
    | some uri ↦ some (
        if uri.failed
        then (w, EspErr.esp_err_invalid_arg)
        else esp_result (gm_web_handler_run t uri.uri uri WebMethod.post w))
  ]

  unfoldable pub run_put_handlers : Handlers W → Bytes → W → Option (W × EspErr)
  unfolding gm_web_handler_run gm_uri_parse
  run_put_handlers t request_uri w = elim (gm_uri_parse request_uri) [
    | none ↦ none
    | some first ↦ elim (gm_uri_parse first.uri) [
      | none ↦ none
      | some second ↦ some (
          if second.failed
          then (w, EspErr.esp_fail)
          else esp_result (gm_web_handler_run t second.uri (again first second) WebMethod.put w))
    ]
  ]
