-- ===== src/Select.antt =====
-- components/generic_main/select_task.c: the table of file descriptors that the select task watches.
-- Times are microseconds, and 0 is a timer that is not set.
pub mod Limit
pub mod Sleep
pub mod Round
pub mod Descriptors
pub mod Wake
mod Tests
use rigcontrol.Common.{
  ℕ, zero, suc, ◌+◌, ◌-◌, ◌*◌, min, Bool, true, false, not, ◌&&◌, ◌||◌, Option, none, some, List,
  [], ◌∷◌, ltb, ◌==◌, if◌then◌else◌,
}

-- One descriptor's bits in the three sets, its handler and data, and its timer.
pub record Entry : Type 0 where
  pub readable : Bool
  pub writable : Bool
  pub exception : Bool
  pub handler : Option ℕ
  pub data_pointer : ℕ
  pub timeout : ℕ

-- The statics. The arrays are read and written without a look at their size.
pub record Table : Type 0 where
  pub fd_limit : ℕ
  pub entries : ℕ → Entry

abbrev pub number_of_fds : ℕ
number_of_fds = 100

abbrev pub is_set : Entry → Bool
is_set e = e.readable || e.writable || e.exception

abbrev pub cleared : Entry
cleared = record {
  readable = false;
  writable = false;
  exception = false;
  handler = none;
  data_pointer = 0;
  timeout = 0;
}

abbrev pub put : (ℕ → Entry) → ℕ → Entry → ℕ → Entry
put es fd e i = if i == fd then e else es i

unfoldable pub gm_fd_register : ℕ → Entry → ℕ → ℕ → Table → Table
gm_fd_register fd wanted seconds now t = record {
  fd_limit = if ltb t.fd_limit (fd + 1) then fd + 1 else t.fd_limit;
  entries =
      put t.entries fd
        (record wanted { timeout = if seconds == 0 then 0 else now + seconds * 1000000 });
}

-- The highest descriptor below `n` that is set, plus one.
unfoldable pub highest : (ℕ → Entry) → ℕ → ℕ
highest es zero = 0
highest es (suc i) = let lower = highest es i in if is_set (es i) then suc i else lower

unfoldable pub gm_fd_unregister : ℕ → Table → Table
unfolding highest
gm_fd_unregister fd t = record {
  fd_limit = if t.fd_limit == fd + 1 then highest t.entries fd else t.fd_limit;
  entries = put t.entries fd cleared;
}

-- The loop before `select`, at descriptor `i` with `n` to go: the descriptors that it marks as
-- monitored, and the time to sleep. It stops at the first timer that has run out.
module _ (is_open : ℕ → Bool) (es : ℕ → Entry) (now : ℕ) where
  abbrev pub sleep_at : ℕ → ℕ → ℕ
  sleep_at i min_time =
      if (es i).timeout == 0 then min_time else min ((es i).timeout - now) min_time

  unfoldable pub scan : ℕ → ℕ → ℕ → List ℕ × ℕ
  scan zero i min_time = ([], min_time)
  scan (suc n) i min_time =
      let skipped = scan n (i + 1) min_time in
      let watched = scan n (i + 1) (sleep_at i min_time) in
      if is_set (es i) && is_open i
      then (if not ((es i).timeout == 0) && ltb ((es i).timeout) now
          then (i ∷ [], 0)
          else (i ∷ watched.0, watched.1))
      else skipped

-- The timer has run out, or will within 10 milliseconds.
abbrev pub runs_out : ℕ → ℕ → Bool
runs_out timeout now = not (timeout == 0) && (ltb timeout now || ltb (timeout - now) 10000)

-- What a handler is called with.
pub record Notice : Type 0 where
  pub fd : ℕ
  pub data_pointer : ℕ
  pub readable : Bool
  pub writable : Bool
  pub exception : Bool
  pub timeout : Bool

-- `handle` runs a handler, which may register and unregister descriptors.
module _ (handle : ℕ → Notice → Table → Table) (monitored : ℕ → Bool) (now : ℕ) where
  abbrev pub notify : Option ℕ → Notice → Table → Table
  notify none notice t = t
  notify (some h) notice t = handle h notice t

  -- A monitored descriptor after `select` found some ready; `ready` is what the three sets hold.
  unfoldable pub dispatch : (ℕ → Entry) → ℕ → Table → Table
  unfolding gm_fd_unregister
  dispatch ready i t =
      let e = t.entries i in
      let out = runs_out e.timeout now in
      let notice : Notice = record {
        fd = i;
        data_pointer = e.data_pointer;
        readable = (ready i).readable;
        writable = (ready i).writable;
        exception = (ready i).exception;
        timeout = out;
      } in
      if is_set (ready i) || out
      then notify e.handler notice (if out then gm_fd_unregister i t else t)
      else t

  -- A monitored descriptor after `select` found none ready: `timeout` stays set for all that follow.
  unfoldable pub time_out : ℕ → Table → Table
  unfolding gm_fd_unregister
  time_out i t =
      let e = t.entries i in
      notify e.handler
        (record {
          fd = i;
          data_pointer = e.data_pointer;
          readable = false;
          writable = false;
          exception = false;
          timeout = true;
        })
        (gm_fd_unregister i t)

  -- The loop after `select` found some ready; `none` is out of fuel. `fd_limit` is read again in
  -- every round.
  unfoldable pub dispatch_loop : (ℕ → Entry) → ℕ → ℕ → Table → Option Table
  unfolding dispatch
  dispatch_loop ready zero i t = none
  dispatch_loop ready (suc fuel) i t =
      let rest = dispatch_loop ready fuel (i + 1) (if monitored i then dispatch ready i t else t) in
      if ltb i t.fd_limit then rest else some t

  unfoldable pub timeout_loop : ℕ → ℕ → Bool → Table → Option Table
  unfolding time_out
  timeout_loop zero i timeout t = none
  timeout_loop (suc fuel) i timeout t =
      let out = timeout || (monitored i && runs_out ((t.entries i).timeout) now) in
      let rest = timeout_loop fuel (i + 1) out (if monitored i && out then time_out i t else t) in
      if ltb i t.fd_limit then rest else some t
