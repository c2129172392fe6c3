-- ===== src/PatternString.antt =====
-- components/generic_main/pattern_string.c: replaces each {name} of a string by what a coroutine
-- writes for the name.
pub mod Bounds
pub mod Expand
mod Tests
use rigcontrol.Common.{
  ℕ, zero, suc, ◌+◌, ◌-◌, ◌%◌, ◌^◌, Bool, true, false, ◌&&◌, Option, none, some, List, [], ◌∷◌,
  ◌++◌, Bytes, length, ltb, if◌then◌else◌, index,
}

-- The coroutine: given a name, which stands at `out`, and the room there, the string that it leaves there; `none` is
-- a nonzero status.
abbrev pub Coroutine : Type 0
Coroutine = Bytes → ℕ → Option Bytes

-- Where the function gives up.
pub data Failure : Type 0 where
  name_missing end_missing leading_too_long name_too_long : Failure
  no_replacement final_too_long : Failure

-- How it returns: 0 with the string in the buffer, or -1 with what has been copied to it by then,
-- which need not have a null behind it. The coroutine may have written over the name that was copied.
pub data Outcome : Type 0 where
  done : Bytes → Outcome
  failed : Failure → Bytes → Outcome
  out_of_fuel : Outcome

-- `size_t` subtraction wraps.
abbrev pub sub_size : ℕ → ℕ → ℕ
sub_size a b = (a + 2 ^ 32 - b) % 2 ^ 32

abbrev pub is_empty : Bytes → Bool
is_empty [] = true
is_empty (c ∷ cs) = false

-- There is a `{` before the `}`.
abbrev pub has_open : Bytes → Bool
has_open name = elim (index b'{' name) [ none ↦ false | some _ ↦ true ]

-- The string that the coroutine left, or why there is none, and what was copied before.
pub data Replaced : Type 0 where
  replaced : Bytes → Replaced
  refused : Failure → Bytes → Replaced

-- One replacement: `leading` is what stands before the `{`.
abbrev pub replace : Coroutine → ℕ → Bytes → Bytes → Replaced
replace coroutine size leading name =
    let room = sub_size size (length leading) in
    if ltb (sub_size size 1) (length leading)
    then refused Failure.leading_too_long []
    else if ltb (sub_size room 1) (length name)
    then refused Failure.name_too_long leading
    else elim (coroutine name room) [
      | none ↦ refused Failure.no_replacement (leading ++ name)
      | some result ↦ replaced result
    ]

-- What follows a replacement: the loop goes on behind it.
abbrev pub after_replace : (Bytes → ℕ → Outcome) → Bytes → ℕ → Bytes → Replaced → Outcome
after_replace loop out size leading (refused why copied) = failed why (out ++ copied)
after_replace loop out size leading (replaced result) =
    loop (out ++ (leading ++ result)) (sub_size (sub_size size (length leading)) (length result))

-- The loop's body at a `{`, with the name that stands before the first `}` behind it.
pub substitute : Coroutine → (Bytes → ℕ → Outcome) → Bytes → ℕ → Bytes → Bytes → Outcome
substitute coroutine loop out size leading name =
    let next = after_replace loop out size leading (replace coroutine size leading name) in
    if is_empty name
    then failed Failure.name_missing out
    else if has_open name
    then failed Failure.end_missing out
    else next

-- The loop, at what is left of the string; `out` has been copied to the buffer and `size` bytes of
-- it are left.
pub pattern_loop : Coroutine → ℕ → Bytes → Bytes → ℕ → Outcome
pattern_loop coroutine zero start out size = out_of_fuel
pattern_loop coroutine (suc fuel) [] out size = done out
pattern_loop coroutine (suc fuel) (c ∷ cs) out size = elim (index b'{' (c ∷ cs)) [
  | none ↦
      if ltb (sub_size size 1) (length (c ∷ cs))
      then failed Failure.final_too_long []
      else done (out ++ c ∷ cs)
  | some (leading, var) ↦ elim (index b'}' var) [
    | none ↦ failed Failure.end_missing out
    | some (name, behind) ↦
        substitute coroutine (pattern_loop coroutine fuel behind) out size leading name
  ]
]

pub gm_pattern_string : Coroutine → Bytes → ℕ → Outcome
unfolding pattern_loop substitute
gm_pattern_string coroutine string size = pattern_loop coroutine (length string + 1) string [] size
