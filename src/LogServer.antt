-- ===== src/LogServer.antt =====
-- components/generic_main/log_server.c: logging goes to a connection, where there is one, and to the
-- console, which is descriptor 2, where there is none.
pub mod Session
mod Tests
use rigcontrol.Common.{
  ℕ, suc, Bool, true, false, not, ◌&&◌, Option, none, some, ◌==◌, if◌then◌else◌,
}
use rigcontrol.Select.{Table, gm_fd_register, gm_fd_unregister}
use rigcontrol.Select.Descriptors.{mark, watching}

-- `server`, where `none` is -1, `GM.log_fd` with the file on it, the descriptors that are open, the
-- select task's table, and how often `GM_FAIL` was called.
pub record Log : Type 0 where
  pub server : Option ℕ
  pub log_fd : ℕ
  pub is_open : ℕ → Bool
  pub table : Table
  pub failures : ℕ

abbrev pub console_fd : ℕ
console_fd = 2

abbrev pub log_fail : Log → Log
log_fail l = record l { failures = suc l.failures }

-- `fclose` closes the descriptor.
unfoldable pub logging_connection_closed : Log → Log
unfolding gm_fd_unregister
logging_connection_closed l = if l.log_fd == console_fd then l else record l {
  table = gm_fd_unregister l.log_fd l.table;
  is_open = mark l.log_fd false l.is_open;
  log_fd = console_fd;
}

-- An event on the connection: `received` is what `recv` gives, `none` where it fails.
pub record LogEvent : Type 0 where
  pub readable : Bool
  pub exception : Bool
  pub received : Option ℕ

abbrev pub is_end : Option ℕ → Bool
is_end none = false
is_end (some n) = n == 0

unfoldable pub socket_event_handler : LogEvent → Log → Log
unfolding logging_connection_closed
socket_event_handler e l =
    if e.exception
    then logging_connection_closed l
    else if e.readable && is_end e.received
    then logging_connection_closed l
    else l

-- `handler` is the address of the handler that is registered, `now` the time.
module _ (handler now : ℕ) where
  abbrev pub accepted : ℕ → Log → Log
  unfolding gm_fd_register
  accepted connection l = record l {
    log_fd = connection;
    is_open = mark connection true l.is_open;
    table = gm_fd_register connection (watching handler 0) 0 now l.table;
  }

  -- `connection` is what `accept` gives. A connection that is there already is left open and
  -- registered.
  unfoldable pub accept_handler : Bool → Bool → Option ℕ → Log → Log
  unfolding accepted
  accept_handler true exception none l = log_fail l
  accept_handler true true (some connection) l = log_fail (accepted connection l)
  accept_handler true false (some connection) l = accepted connection l
  accept_handler false true connection l = log_fail l
  accept_handler false false connection l = l

  -- With the results of `socket`, `bind` and `listen`, both of which fail without a socket. The
  -- variable keeps the socket in every case.
  unfoldable pub gm_log_server_start : Option ℕ → Bool → Bool → Log → Log
  unfolding gm_fd_register
  gm_log_server_start none bound listens l = log_fail (record l { server = none })
  gm_log_server_start (some fd) false listens l =
      log_fail (record l { server = some fd; is_open = mark fd true l.is_open })
  gm_log_server_start (some fd) true false l =
      log_fail (record l { server = some fd; is_open = mark fd false (mark fd true l.is_open) })
  gm_log_server_start (some fd) true true l = record l {
    server = some fd;
    is_open = mark fd true l.is_open;
    table = gm_fd_register fd (watching handler 0) 0 now l.table;
  }

abbrev pub stop_server : Option ℕ → Log → Log
unfolding gm_fd_unregister
stop_server none l = l
stop_server (some fd) l = record l {
  server = none;
  is_open = mark fd false l.is_open;
  table = gm_fd_unregister fd l.table;
}

unfoldable pub gm_log_server_stop : Log → Log
unfolding logging_connection_closed stop_server
gm_log_server_stop l = let closed = logging_connection_closed l in stop_server closed.server closed
