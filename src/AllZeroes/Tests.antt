-- ===== src/AllZeroes/Tests.antt =====
-- Comparisons of a memory that is zero but for one byte.
use rigcontrol.Common.{◌≡◌, refl, inr, arith, false, some, ◌==◌, if◌then◌else◌}
use rigcontrol.AllZeroes.{Memory, leading, words, compare_rest, gm_all_zeroes}
use rigcontrol.AllZeroes.Compare.{Tells, gm_all_zeroes_iff}

-- The byte 17 is one.
abbrev one_byte : Memory
one_byte at = if at == 17 then 1 else 0

sees_it : gm_all_zeroes 17 one_byte 8 16 ≡ some false
unfolding gm_all_zeroes leading compare_rest words
sees_it = refl

-- The bytes 8 to 23, with the one of them.
gm_all_zeroes_iff_example : Tells (gm_all_zeroes 17 one_byte 8 16) one_byte 8 16
gm_all_zeroes_iff_example = gm_all_zeroes_iff one_byte 8 16 (inr (refl, refl)) (omega arith)

-- The byte 15 is one: the last of the six from 10 on.
abbrev last_byte : Memory
last_byte at = if at == 15 then 1 else 0
