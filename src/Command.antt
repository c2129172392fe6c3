-- ===== src/Command.antt =====
-- components/generic_main/command.c: commands are registered by constructors, in any order, and come
-- to the console in alphabetical order.
pub mod Sorted
mod Tests
use rigcontrol.Common.{
  ℕ, zero, suc, ◌+◌, Bool, true, false, Option, none, some, List, [], ◌∷◌, ◌++◌, Bytes, take, drop,
  ltb, ◌==◌, if◌then◌else◌,
}
use rigcontrol.Array.{
  GmArray, Got, aborted, read, gm_array_create, gm_array_add, gm_array_size, gm_array_get,
}

-- `esp_console_cmd_t`: its name, and the address of its function.
pub record Command : Type 0 where
  pub command : Bytes
  pub func : ℕ

-- `strcmp(a, b) <= 0`
unfoldable pub strcmp_le : Bytes → Bytes → Bool
strcmp_le [] b = true
strcmp_le (x ∷ a) [] = false
strcmp_le (x ∷ a) (y ∷ b) = let rest = strcmp_le a b in if x == y then rest else ltb x y

-- `compare(a, b) <= 0`
abbrev pub compare_le : Command → Command → Bool
unfolding strcmp_le
compare_le a b = strcmp_le a.command b.command

-- `array`, which is 0 before the first command is registered.
unfoldable pub gm_command_register : Command → Option (GmArray Command) → Option (GmArray Command)
unfolding gm_array_create gm_array_add
gm_command_register command none = some (gm_array_add gm_array_create command)
gm_command_register command (some array) = some (gm_array_add array command)

-- The loop, at an index, with a number of commands to go. `accepts` is what `esp_console_cmd_register`
-- finds; the `none`s are aborts, or a read of what is no command.
module _ (accepts : List Command → Command → Bool) where
  abbrev pub register_got : Got Command → List Command → Option (List Command)
  register_got aborted console = none
  register_got (read (some (some c))) console =
      if accepts console c then some (console ++ c ∷ []) else none
  register_got (read _) console = none

  unfoldable pub register_each : ℕ → ℕ → GmArray Command → List Command → Option (List Command)
  unfolding gm_array_get
  register_each zero i array console = some console
  register_each (suc n) i array console = elim (register_got (gm_array_get array i) console) [
    | none ↦ none
    | some console' ↦ register_each n (i + 1) array console'
  ]

  -- `qsort` sorts the pointers that the array holds. The console's commands behind the call, or
  -- `GM_FAIL`, which leaves them as they are.
  module _ (qsort : List (Option Command) → List (Option Command)) where
    abbrev pub sorted : GmArray Command → GmArray Command
    unfolding gm_array_size
    sorted array = record array {
      block =
          qsort (take (gm_array_size array) array.block) ++ drop (gm_array_size array) array.block;
    }

    unfoldable pub gm_command_add_registered_to_console :
        Option (GmArray Command) → List Command → Option (List Command)
    unfolding register_each gm_array_size sorted
    gm_command_add_registered_to_console none console = some console
    gm_command_add_registered_to_console (some array) console =
        let registered = register_each (gm_array_size array) 0 (sorted array) console in
        if gm_array_size array == 0 then some console else registered
