-- ===== src/Select/Tests.antt =====
-- Two descriptors with a timer, and handlers that do nothing or unregister.
use rigcontrol.Common.{ℕ, ◌≤◌, ◌≡◌, refl, arith, true, some, List, [], ◌∷◌, ◌-◌, ◌*◌}
use rigcontrol.Select.{Entry, Table, cleared, gm_fd_register, gm_fd_unregister, scan}
use rigcontrol.Select.Limit.{Change, register, unregister, change_all}
use rigcontrol.Select.Sleep.{scan-sleep}

abbrev reading : ℕ → Entry
reading fd = record cleared { readable = true; handler = some 1; data_pointer = fd }

abbrev empty : Table
empty = record { fd_limit = 0; entries = λ fd. cleared }

abbrev changes : List Change
changes = register 5 (reading 5) 3 1000 ∷ register 7 (reading 7) 0 1000 ∷ unregister 7 ∷ []

-- The limit falls back to the descriptor that is left.
limit_example : (change_all changes empty).fd_limit ≡ 6
unfolding change_all gm_fd_register gm_fd_unregister
limit_example = refl

abbrev sleepy : ℕ → Entry
sleepy fd = record (reading fd) { timeout = 3000000 }

scan-sleep_example :
    ((scan (λ fd. true) sleepy 1000 8 0 (365 * 24 * 60 * 60 * 1000000)).1 ≤ 3000000 - 1000)
    × ((scan (λ fd. true) sleepy 1000 8 0 (365 * 24 * 60 * 60 * 1000000)).1
        ≤ 365 * 24 * 60 * 60 * 1000000)
scan-sleep_example =
    scan-sleep (λ fd. true) sleepy 1000 8 0 (365 * 24 * 60 * 60 * 1000000) 5 (omega arith)
      (omega arith) refl refl (λ e. omega (arith, e))
