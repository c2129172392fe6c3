-- ===== src/Select/Descriptors.antt =====
-- What the users of the table share: which descriptors are open, and the registration of a reader, as
-- port_control_protocol.c, log_server.c and event_server.c make it.
use rigcontrol.Common.{ℕ, Bool, true, false, Option, none, some, ◌==◌, if◌then◌else◌}
use rigcontrol.Select.{Entry}

abbrev pub mark : ℕ → Bool → (ℕ → Bool) → ℕ → Bool
mark fd b is_open i = if i == fd then b else is_open i

-- After `socket`, with what it gives.
abbrev pub opened : Option ℕ → (ℕ → Bool) → ℕ → Bool
opened none is_open = is_open
opened (some fd) is_open = mark fd true is_open

-- `handler` is the address of the handler.
abbrev pub watching : ℕ → ℕ → Entry
watching handler data_pointer = record {
  readable = true;
  writable = false;
  exception = true;
  handler = some handler;
  data_pointer = data_pointer;
  timeout = 0;
}
