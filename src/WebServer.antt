-- ===== src/WebServer.antt =====
-- components/generic_main/webserver.c, with what web_handlers.c and compressed_fs.c install on the
-- server of the platform, and the redirection of the root.
pub mod Route
mod Tests
use rigcontrol.Common.{
  ℕ, Bool, true, false, Option, none, some, List, [], ◌∷◌, ◌++◌, Bytes, codes, ◌==◌, if◌then◌else◌,
}
use rigcontrol.Web.{WebMethod}

-- The handlers of URIs.
pub data UriHandler : Type 0 where
  http_root_handler http_file_handler run_post_handlers run_put_handlers : UriHandler

-- `httpd_uri_t`
pub record HttpdUri : Type 0 where
  pub uri : Bytes
  pub method : WebMethod
  pub handler : UriHandler

-- `httpd_register_uri_handler`, on the list of what is registered.
abbrev pub httpd_register_uri_handler : HttpdUri → List HttpdUri → List HttpdUri
httpd_register_uri_handler h server = server ++ h ∷ []

unfoldable pub gm_compressed_fs_web_handlers : List HttpdUri → List HttpdUri
gm_compressed_fs_web_handlers server =
    httpd_register_uri_handler
      (record { uri = codes "/*"; method = WebMethod.get; handler = http_file_handler })
      (httpd_register_uri_handler
        (record { uri = codes "/"; method = WebMethod.get; handler = http_root_handler }) server)

unfoldable pub gm_web_handler_install : List HttpdUri → List HttpdUri
unfolding gm_compressed_fs_web_handlers
gm_web_handler_install server =
    httpd_register_uri_handler
      (record { uri = codes "/*"; method = WebMethod.put; handler = run_put_handlers })
      (httpd_register_uri_handler
        (record { uri = codes "/*"; method = WebMethod.post; handler = run_post_handlers })
        (gm_compressed_fs_web_handlers server))

-- The redirection: the status, the header Location and an empty body.
pub record Redirect : Type 0 where
  pub status : Bytes
  pub location : Bytes
  pub body : Bytes

abbrev pub root_response : Redirect
root_response = record {
  status = codes "301 Moved Permanently";
  location = codes "/index.html";
  body = [];
}

-- `sntp_sync_mode_t`
pub data SyncMode : Type 0 where
  immed smooth : SyncMode

-- `server`, where `none` is NULL; `GM.time_last_synchronized`; the SNTP client: whether it runs, its
-- mode, and how often it was restarted.
pub record Site : Type 0 where
  pub server : Option (List HttpdUri)
  pub time_last_synchronized : ℕ
  pub sntp_runs : Bool
  pub sync_mode : SyncMode
  pub restarts : ℕ

-- `now` is `esp_timer_get_time()`.
unfoldable pub time_was_synchronized : ℕ → Site → Site
time_was_synchronized now s =
    let adjusted : Site =
      if s.time_last_synchronized == 0
      then record s { sync_mode = smooth; restarts = ℕ.suc s.restarts }
      else s in
    record adjusted { time_last_synchronized = now }

-- `starts` is whether `httpd_start` succeeds.
unfoldable pub start_webserver : Bool → Site → Site
unfolding gm_web_handler_install
start_webserver starts s = elim s.server [
  | some server ↦ s
  | none ↦ record s {
    sntp_runs = true;
    sync_mode = immed;
    server = if starts then some (gm_web_handler_install []) else none;
  }
]

unfoldable pub stop_webserver : Site → Site
stop_webserver s = elim s.server [
  | none ↦ s
  | some server ↦ record s { sntp_runs = false; time_last_synchronized = 0; server = none }
]
