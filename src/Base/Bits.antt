-- ===== src/Base/Bits.antt =====
-- `|`, `&` and `^` on machine words at variables: one equation for the lowest bit each, and the
-- laws that follow. Shifts are `* 2 ^ k` and `/ 2 ^ k`.
mod Step
pub use Step.{bit_or_step, bit_and_step, bit_xor_step}
use mathlib.Core.Path.{◌≡◌, refl, ap}
use native.Mathlib.Nat.{pow-suc}
use native.Mathlib.Omega.{arith}
use Prim.Native.Nat.{ℕ, zero, suc, ◌+◌, ◌*◌, ◌-◌, ◌/◌, ◌%◌, ◌^◌, ◌≤◌, ◌<◌, bit_and, bit_or, bit_xor}

-- Induction on a bound for the numbers, which halve while it falls by one.
or-zero_below : (n a : ℕ) → a ≤ n → bit_or a 0 ≡ a
or-zero_below zero zero h = refl
or-zero_below zero (suc a) h = absurd (omega arith)
or-zero_below (suc n) a h = omega (arith, bit_or_step a 0, or-zero_below n (a / 2) (omega arith))

pub bit_or-zero : (a : ℕ) → bit_or a 0 ≡ a
bit_or-zero a = or-zero_below a a (omega arith)

and-zero_below : (n a : ℕ) → a ≤ n → bit_and a 0 ≡ 0
and-zero_below zero zero h = refl
and-zero_below zero (suc a) h = absurd (omega arith)
and-zero_below (suc n) a h = omega (arith, bit_and_step a 0, and-zero_below n (a / 2) (omega arith))

pub bit_and-zero : (a : ℕ) → bit_and a 0 ≡ 0
bit_and-zero a = and-zero_below a a (omega arith)

-- `(high << k) | field` is a sum where `field` fits below bit `k`.
pub bit_or_shifted :
    (high k : ℕ) {field : ℕ} → field < 2 ^ k → bit_or (high * 2 ^ k) field ≡ field + high * 2 ^ k
bit_or_shifted high zero {field} h = grind (arith, bit_or-zero high)
bit_or_shifted high (suc k) {field} h =
    let doubled : high * 2 ^ suc k ≡ 2 * (high * 2 ^ k) =
      omega (arith, ap (λ (t : ℕ). high * t) (pow-suc 2 k)) in
    omega (
      arith,
      doubled,
      bit_or_step (high * 2 ^ suc k) field,
      bit_or_shifted high k {field = field / 2} (omega (arith, pow-suc 2 k)),
      ap (λ (t : ℕ). bit_or t (field / 2)) halved,
    )
  where
    halved : high * 2 ^ suc k / 2 ≡ high * 2 ^ k
    halved = omega (arith, ap (λ (t : ℕ). high * t) (pow-suc 2 k))

pub bit_and-one : (a : ℕ) → bit_and a 1 ≡ a % 2
bit_and-one a = omega (arith, bit_and_step a 1, bit_and-zero (a / 2))

xor_comm_below : (n a b : ℕ) → a ≤ n → b ≤ n → bit_xor a b ≡ bit_xor b a
xor_comm_below zero zero zero h k = refl
xor_comm_below zero zero (suc b) h k = absurd (omega arith)
xor_comm_below zero (suc a) b h k = absurd (omega arith)
xor_comm_below (suc n) a b h k = omega (
  arith,
  bit_xor_step a b,
  bit_xor_step b a,
  xor_comm_below n (a / 2) (b / 2) (omega arith) (omega arith),
)

pub bit_xor_comm : (a b : ℕ) → bit_xor a b ≡ bit_xor b a
bit_xor_comm a b = xor_comm_below (a + b) a b (omega arith) (omega arith)

xor-zero_below : (n a : ℕ) → a ≤ n → bit_xor a 0 ≡ a
xor-zero_below zero zero h = refl
xor-zero_below zero (suc a) h = absurd (omega arith)
xor-zero_below (suc n) a h = omega (arith, bit_xor_step a 0, xor-zero_below n (a / 2) (omega arith))

pub bit_xor-zero : (a : ℕ) → bit_xor a 0 ≡ a
bit_xor-zero a = xor-zero_below a a (omega arith)

half_xor : (a b : ℕ) → bit_xor a b / 2 ≡ bit_xor (a / 2) (b / 2)
half_xor a b = omega (arith, bit_xor_step a b)

xor_assoc_below :
    (n a b c : ℕ) → a ≤ n → b ≤ n → c ≤ n → bit_xor (bit_xor a b) c ≡ bit_xor a (bit_xor b c)
xor_assoc_below zero zero zero zero h k l = refl
xor_assoc_below zero zero zero (suc c) h k l = absurd (omega arith)
xor_assoc_below zero zero (suc b) c h k l = absurd (omega arith)
xor_assoc_below zero (suc a) b c h k l = absurd (omega arith)
xor_assoc_below (suc n) a b c h k l = ground (
  arith,
  bit_xor_step (bit_xor a b) c,
  bit_xor_step a (bit_xor b c),
  bit_xor_step a b,
  bit_xor_step b c,
  half_xor a b,
  half_xor b c,
  xor_assoc_below n (a / 2) (b / 2) (c / 2) (omega arith) (omega arith) (omega arith),
)

pub bit_xor_assoc : (a b c : ℕ) → bit_xor (bit_xor a b) c ≡ bit_xor a (bit_xor b c)
bit_xor_assoc a b c = xor_assoc_below (a + b + c) a b c (omega arith) (omega arith) (omega arith)

xor_self_below : (n a : ℕ) → a ≤ n → bit_xor a a ≡ 0
xor_self_below zero zero h = refl
xor_self_below zero (suc a) h = absurd (omega arith)
xor_self_below (suc n) a h = omega (arith, bit_xor_step a a, xor_self_below n (a / 2) (omega arith))

pub bit_xor_self : (a : ℕ) → bit_xor a a ≡ 0
bit_xor_self a = xor_self_below a a (omega arith)
