-- ===== src/Select/Wake/Tests.antt =====
-- A register and an unregister while select waits.
use rigcontrol.Common.{ℕ, ◌+◌, ◌≡◌, some, List, [], ◌∷◌, replicate}
use rigcontrol.Select.{Table, cleared}
use rigcontrol.Select.Limit.{Change, register, unregister, change_all}
use rigcontrol.EventServer.{handled}
use rigcontrol.EventServer.Stream.{events, serve}
use rigcontrol.Select.Wake.{Watcher, change_each, wakeups, waiting, serve-change_each}

abbrev empty : Table
empty = record { fd_limit = 0; entries = λ fd. cleared }

abbrev changes : List Change
changes = register 61 cleared 0 5 ∷ unregister 61 ∷ []

abbrev add : ℕ → ℕ → ℕ → ℕ
add procedure data_address world = world + data_address

serve-change_each_example :
    (w : Watcher) × (change_each changes (waiting empty []) ≡ some w)
    × (w.table ≡ change_all changes empty)
    × (serve add (events (wakeups changes)) (record { arrived = w.client.written; world = 3 })
        ≡ (record { arrived = []; world = 3 }, replicate (events (wakeups changes)) handled))
serve-change_each_example = serve-change_each add changes empty 3
