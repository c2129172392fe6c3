-- ===== src/AllZeroes.antt =====
-- components/generic_main/all_zeroes.c: whether an object in memory has only zeroes in it, compared
-- by words where the address and the size allow.
pub mod Compare
pub mod Misses
mod Tests
use rigcontrol.Common.{
  ℕ, zero, suc, ◌+◌, ◌-◌, ◌%◌, ◌^◌, Bool, true, false, ◌&&◌, Option, none, some, ltb, leb, ◌==◌,
  if◌then◌else◌,
}

-- The bytes by their address.
abbrev pub Memory : Type 0
Memory = ℕ → ℕ

abbrev pub zero_half : Memory → ℕ → Bool
zero_half memory at = memory at == 0 && memory (at + 1) == 0

abbrev pub zero_word : Memory → ℕ → Bool
zero_word memory at = zero_half memory at && zero_half memory (at + 2)

-- What is left to compare, or that a byte was found that is not zero.
pub data Left : Type 0 where
  found : Left
  left : ℕ → ℕ → Left

-- The size is a `size_t`, so it wraps.
abbrev pub less : ℕ → ℕ → ℕ
less size n = (size + 2 ^ 32 - n) % 2 ^ 32

-- The cases 2 and 3 of the switch. The address grows by one in each of them, since it is a
-- `void *`.
abbrev pub leading_half : Memory → ℕ → ℕ → Left
leading_half memory at size = if zero_half memory at then left (at + 1) (less size 2) else found

abbrev pub leading_byte : Memory → ℕ → ℕ → Left
leading_byte memory at size = if memory at == 0 then left (at + 1) (less size 1) else found

-- The case 1 falls through to the case 2.
abbrev pub leading_three : Memory → ℕ → ℕ → Left
leading_three memory at size =
    if memory at == 0 then leading_half memory (at + 1) (less size 1) else found

-- The switch.
unfoldable pub leading : Memory → ℕ → ℕ → Left
leading memory at size =
    if ltb 4 size
    then (if at % 4 == 1
        then leading_three memory at size
        else if at % 4 == 2
        then leading_half memory at size
        else if at % 4 == 3
        then leading_byte memory at size
        else left at size)
    else left at size

-- The loop over words: `none` is out of fuel.
unfoldable pub words : ℕ → Memory → ℕ → ℕ → Option Bool
words zero memory at size = none
words (suc fuel) memory at size =
    let rest = words fuel memory (at + 4) (less size 4) in
    if size == 0 then some true else if zero_word memory at then rest else some false

-- The loop over the last bytes, which are fewer than four.
unfoldable pub bytes : ℕ → Memory → ℕ → Bool
bytes zero memory at = true
bytes (suc size) memory at = memory at == 0 && bytes size memory (at + 1)

-- Behind the loop over words the size is 0.
unfoldable pub compare_rest : ℕ → Memory → Left → Option Bool
unfolding words bytes
compare_rest fuel memory found = some false
compare_rest fuel memory (left at size) =
    if leb 4 size then words fuel memory at size else some (bytes size memory at)

unfoldable pub gm_all_zeroes : ℕ → Memory → ℕ → ℕ → Option Bool
unfolding leading compare_rest
gm_all_zeroes fuel memory at size = compare_rest fuel memory (leading memory at size)
