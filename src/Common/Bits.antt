-- ===== src/Common/Bits.antt =====
-- Exclusive or at every width: taking the same word away again gives back the first one.
use Prim.Native.Nat.{ℕ, zero, suc, ◌+◌, ◌-◌, ◌*◌, ◌/◌, ◌%◌, ◌≤◌, ◌<◌}
use Prim.Native.Nat.{bit_xor, bit_xor-bitwise, digits, differ}
use mathlib.Core.Path.{◌≡◌, refl, ap, ◌∙◌}
use native.Mathlib.Omega.{arith}

abbrev xor_digits : ℕ → ℕ → ℕ → ℕ
xor_digits n a b = digits (λ b. b) differ n a b

-- One more digit than the number has changes nothing, and so none of any number of them.
xor_digits_one_more :
    (fuel left right : ℕ)
    → left ≤ fuel
    → xor_digits (suc fuel) left right ≡ xor_digits fuel left right
xor_digits_one_more zero zero right h = refl
xor_digits_one_more (suc fuel) zero right h = refl
xor_digits_one_more zero (suc left) right h = absurd (omega arith)
xor_digits_one_more (suc fuel) (suc left) right h =
    omega (arith, xor_digits_one_more fuel (suc left / 2) (right / 2) (omega arith))

xor_digits_more :
    (more fuel left right : ℕ)
    → left ≤ fuel
    → xor_digits (more + fuel) left right ≡ xor_digits fuel left right
xor_digits_more zero fuel left right h = ap (λ n. xor_digits n left right) (omega arith)
xor_digits_more (suc more) fuel left right h =
    ap (λ n. xor_digits n left right) {y = suc (more + fuel)} (omega arith)
    ∙ xor_digits_one_more (more + fuel) left right (omega (arith, h))
    ∙ xor_digits_more more fuel left right h

xor_digits_half :
    (left right : ℕ)
    → xor_digits left (suc left / 2) right ≡ xor_digits (suc left / 2) (suc left / 2) right
xor_digits_half left right =
    ap (λ fuel. xor_digits fuel (suc left / 2) right) (split_half left)
    ∙ xor_digits_more (left - suc left / 2) (suc left / 2) (suc left / 2) right (omega arith)
  where
    split_half : (n : ℕ) → n ≡ n - suc n / 2 + suc n / 2
    split_half n = omega arith

differ_lem : (x y : ℕ) → x < 2 → y < 2 → differ x y ≡ (x + y) % 2
differ_lem zero y p q = omega arith
differ_lem (suc zero) zero p q = refl
differ_lem (suc zero) (suc zero) p q = refl
differ_lem (suc zero) (suc (suc y)) p q = absurd (omega arith)
differ_lem (suc (suc x)) y p q = absurd (omega arith)

zero-bit_xor : (b : ℕ) → bit_xor 0 b ≡ b
zero-bit_xor b = bit_xor-bitwise 0 b

-- The law for the lowest digit.
bit_xor_step : (a b : ℕ) → bit_xor a b ≡ bit_xor (a / 2) (b / 2) * 2 + (a % 2 + b % 2) % 2
bit_xor_step zero b = omega (arith, zero-bit_xor b, zero-bit_xor (b / 2))
bit_xor_step (suc a) b =
    let half = xor_digits_half a (b / 2) in
    let low = differ_lem (suc a % 2) (b % 2) (omega arith) (omega arith) in
    omega (arith, half, low, bit_xor-bitwise (suc a / 2) (b / 2), bit_xor-bitwise (suc a) b)

xor_half : (a b : ℕ) → bit_xor a b / 2 ≡ bit_xor (a / 2) (b / 2)
xor_half a b = omega (arith, bit_xor_step a b)

bit_xor_cancel_fuel : (n a m : ℕ) → a ≤ n → m ≤ n → bit_xor (bit_xor a m) m ≡ a
bit_xor_cancel_fuel zero zero zero p q = refl
bit_xor_cancel_fuel zero zero (suc m) p q = absurd (omega arith)
bit_xor_cancel_fuel zero (suc a) m p q = absurd (omega arith)
bit_xor_cancel_fuel (suc n) a m p q =
    let step : bit_xor (bit_xor a m / 2) (m / 2) ≡ a / 2 =
      rw (xor_half a m) (bit_xor_cancel_fuel n (a / 2) (m / 2) (omega arith) (omega arith)) in
    omega (arith, bit_xor_step (bit_xor a m) m, bit_xor_step a m, step)

pub bit_xor_cancel : (a m : ℕ) → bit_xor (bit_xor a m) m ≡ a
bit_xor_cancel a m = bit_xor_cancel_fuel (a + m) a m (omega arith) (omega arith)
