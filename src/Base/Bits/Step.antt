-- ===== src/Base/Bits/Step.antt =====
-- Each native bit operation is a recursion on binary digits with a count of digits to go. A count
-- that is large enough changes nothing, so every operation has an equation for its lowest bit.
use Prim.Native.Nat.{ℕ, zero, suc, ◌+◌, ◌*◌, ◌/◌, ◌%◌, ◌≤◌, ◌<◌, min, max, digits, differ}
use Prim.Native.Nat.{bit_xor-bitwise, bit_and-bitwise, bit_or-bitwise, bit_and, bit_or, bit_xor}
use mathlib.Core.Path.{◌≡◌, refl}
use native.Mathlib.Omega.{arith}

module _ (op : ℕ → ℕ → ℕ) (rest : ℕ → ℕ) where
  -- Two counts, each at least the first number.
  same_count : (y c : ℕ) {x c' : ℕ} → x ≤ c → x ≤ c' → digits rest op c x y ≡ digits rest op c' x y
  same_count y zero {x = suc x} p q = absurd (omega arith)
  same_count y c {x = suc x} {c' = zero} p q = absurd (omega arith)
  same_count y zero {x = zero} {c' = zero} p q = refl
  same_count y zero {x = zero} {c' = suc c'} p q = refl
  same_count y (suc c) {x = zero} {c' = zero} p q = refl
  same_count y (suc c) {x = zero} {c' = suc c'} p q = refl
  same_count y (suc c) {x = suc x} {c' = suc c'} p q =
      rw (same_count (y / 2) c {x = suc x / 2} {c' = c'} (omega arith) (omega arith))

  lowest :
      (y x : ℕ)
      → digits rest op (suc x) (suc x) y
        ≡ op (suc x % 2) (y % 2) + 2 * digits rest op (suc x / 2) (suc x / 2) (y / 2)
  lowest y x =
      omega
        (arith, same_count (y / 2) x {x = suc x / 2} {c' = suc x / 2} (omega arith) (omega arith))

pub bit_and_step : (x y : ℕ) → bit_and x y ≡ min (x % 2) (y % 2) + 2 * bit_and (x / 2) (y / 2)
bit_and_step (suc x) y = simp bit_and-bitwise (lowest min (λ _. 0) y x)
bit_and_step zero y = simp bit_and-bitwise (omega arith)

pub bit_or_step : (x y : ℕ) → bit_or x y ≡ max (x % 2) (y % 2) + 2 * bit_or (x / 2) (y / 2)
bit_or_step (suc x) y = simp bit_or-bitwise (lowest max (λ t. t) y x)
bit_or_step zero y = simp bit_or-bitwise (omega arith)

-- On two digits `differ` is the sum without its carry.
differ_sum : (x y : ℕ) → x < 2 → y < 2 → differ x y ≡ (x + y) % 2
differ_sum zero zero h k = refl
differ_sum zero (suc y) h k = omega arith
differ_sum (suc x) zero h k = omega arith
differ_sum (suc zero) (suc zero) h k = refl
differ_sum (suc zero) (suc (suc y)) h k = absurd (omega arith)
differ_sum (suc (suc x)) (suc y) h k = absurd (omega arith)

xor_lowest : (x y : ℕ) → bit_xor x y ≡ differ (x % 2) (y % 2) + 2 * bit_xor (x / 2) (y / 2)
xor_lowest (suc x) y = simp bit_xor-bitwise (lowest differ (λ t. t) y x)
xor_lowest zero y = simp bit_xor-bitwise (omega arith)

pub bit_xor_step : (x y : ℕ) → bit_xor x y ≡ (x + y) % 2 + 2 * bit_xor (x / 2) (y / 2)
bit_xor_step x y =
    omega (arith, xor_lowest x y, differ_sum (x % 2) (y % 2) (omega arith) (omega arith))
