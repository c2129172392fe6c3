-- ===== src/Common/Words.antt =====
-- 32-bit words in memory, with the lowest byte first.
use Prim.Native.Nat.{ℕ, ◌+◌, ◌*◌, ◌/◌, ◌%◌, ◌^◌, ◌<◌}
use mathlib.Core.Path.{◌≡◌}
use mathlib.Core.List.{[], ◌∷◌, ◌++◌}
use native.Mathlib.Omega.{arith}
use rigcontrol.Common.Text.{Bytes}

abbrev pub le32 : ℕ → Bytes
le32 w = w % 256 ∷ w / 2 ^ 8 % 256 ∷ w / 2 ^ 16 % 256 ∷ w / 2 ^ 24 % 256 ∷ []

-- The word that four bytes hold.
unfoldable pub word_of : Bytes → ℕ
word_of (a ∷ b ∷ c ∷ d ∷ rest) = a + b * 2 ^ 8 + c * 2 ^ 16 + d * 2 ^ 24
word_of _ = 0

pub word_of-le32 : (w : ℕ) (rest : Bytes) → w < 2 ^ 32 → word_of (le32 w ++ rest) ≡ w
unfolding word_of
word_of-le32 w rest h = omega arith
