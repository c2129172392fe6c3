-- ===== src/WebServer/Route.antt =====
-- Which handler answers a request, whenever the server was started.
use mathlib.Core.Path.{subst}
use rigcontrol.Common.{
  ℕ, str_eq, ◌≡◌, ◌⊎◌, refl, sym, inl, inr, Bool, true, false, ◌&&◌, Option, none, some, List, [],
  ◌∷◌, Bytes, codes, ◌==◌, if◌then◌else◌, Bool-cases,
}
use rigcontrol.Web.{WebMethod}
use rigcontrol.WebServer.{
  UriHandler, http_root_handler, http_file_handler, run_post_handlers, run_put_handlers, HttpdUri,
  gm_compressed_fs_web_handlers, gm_web_handler_install, Site, time_was_synchronized,
  start_webserver, stop_webserver,
}

abbrev pub same_method : WebMethod → WebMethod → Bool
same_method WebMethod.get WebMethod.get = true
same_method WebMethod.put WebMethod.put = true
same_method WebMethod.post WebMethod.post = true
same_method _ _ = false

-- `matches` is what `httpd_uri_match_wildcard` finds of a template and a URI. The server takes the first
-- handler that was registered for the method and whose template matches.
module _ (matches : Bytes → Bytes → Bool) where
  unfoldable pub routed : List HttpdUri → WebMethod → Bytes → Option UriHandler
  routed [] method uri = none
  routed (h ∷ hs) method uri =
      let rest = routed hs method uri in
      if same_method h.method method && matches h.uri uri then some h.handler else rest

  -- The answers to requests of each method.
  pub record Routes (server : List HttpdUri) : Type 0 where
    pub root : routed server WebMethod.get (codes "/") ≡ some http_root_handler
    pub files :
        (c : ℕ) (path : Bytes)
        → routed server WebMethod.get (b'/' ∷ c ∷ path) ≡ some http_file_handler
    pub posts : (path : Bytes) → routed server WebMethod.post (b'/' ∷ path) ≡ some run_post_handlers
    pub puts : (path : Bytes) → routed server WebMethod.put (b'/' ∷ path) ≡ some run_put_handlers

-- What other parts do with the server.
pub data ServerCall : Type 0 where
  started : Bool → ServerCall
  stopped : ServerCall
  synchronized : ℕ → ServerCall

unfoldable pub run_call : ServerCall → Site → Site
unfolding start_webserver stop_webserver time_was_synchronized
run_call (started starts) s = start_webserver starts s
run_call stopped s = stop_webserver s
run_call (synchronized now) s = time_was_synchronized now s

unfoldable pub run_calls : List ServerCall → Site → Site
unfolding run_call
run_calls [] s = s
run_calls (c ∷ cs) s = run_calls cs (run_call c s)

-- There is no server, or one with exactly the handlers of one installation.
abbrev pub IsInstalled : Option (List HttpdUri) → Type 0
IsInstalled server = (server ≡ none) ⊎ (server ≡ some (gm_web_handler_install []))

time_was_synchronized-server :
    (now : ℕ) (s : Site) → (time_was_synchronized now s).server ≡ s.server
unfolding time_was_synchronized
time_was_synchronized-server now s = elim (Bool-cases (s.time_last_synchronized == 0)) [
  | inl e ↦ rw (e, time_was_synchronized) refl
  | inr e ↦ rw (e, time_was_synchronized) refl
]

run_call-IsInstalled :
    (c : ServerCall) (s : Site) → IsInstalled s.server → IsInstalled ((run_call c s).server)
unfolding run_call start_webserver stop_webserver
run_call-IsInstalled (started true) s (inl e) = inr (rw (e, start_webserver) refl)
run_call-IsInstalled (started false) s (inl e) = inl (rw (e, start_webserver) refl)
run_call-IsInstalled (started starts) s (inr e) = inr (rw (e, start_webserver) e)
run_call-IsInstalled stopped s (inl e) = inl (rw (e, stop_webserver) e)
run_call-IsInstalled stopped s (inr e) = inl (rw (e, stop_webserver) refl)
run_call-IsInstalled (synchronized now) s h =
    subst IsInstalled (sym (time_was_synchronized-server now s)) h

run_calls-IsInstalled :
    (cs : List ServerCall) (s : Site) → IsInstalled s.server → IsInstalled ((run_calls cs s).server)
unfolding run_calls
run_calls-IsInstalled [] s h = h
run_calls-IsInstalled (c ∷ cs) s h = run_calls-IsInstalled cs _ (run_call-IsInstalled c s h)

module _ (matches : Bytes → Bytes → Bool)
    (exact : (uri : Bytes) → matches (codes "/") uri ≡ str_eq (codes "/") uri)
    (wildcard : (path : Bytes) → matches (codes "/*") (b'/' ∷ path) ≡ true) where
  install-Routes : Routes matches (gm_web_handler_install [])
  unfolding gm_web_handler_install gm_compressed_fs_web_handlers routed str_eq
  install-Routes = record {
    root = rw (exact (codes "/")) refl;
    files = λ c path. rw (exact (b'/' ∷ c ∷ path), wildcard (c ∷ path)) refl;
    posts = λ path. rw (wildcard path) refl;
    puts = λ path. rw (wildcard path) refl;
  }

  -- Whatever starts, stops and notifications of SNTP come, in whatever order, there is either no server,
  -- or one that sends a GET request for / to the redirection, for any longer path to the files, a POST
  -- request to the POST handlers and a PUT request to the PUT handlers; if there was no server before,
  -- / is matched by itself only, and /* by every path.
  pub run_calls-Routes :
      (cs : List ServerCall) (s : Site)
      → s.server ≡ none
      → ((run_calls cs s).server ≡ none)
        ⊎ ((server : List HttpdUri) × ((run_calls cs s).server ≡ some server)
            × Routes matches server)
  run_calls-Routes cs s h = elim (run_calls-IsInstalled cs s (inl h)) [
    | inl e ↦ inl e
    | inr e ↦ inr (gm_web_handler_install [], e, install-Routes)
  ]
