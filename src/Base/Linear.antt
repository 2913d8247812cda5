-- ===== src/Base/Linear.antt =====
-- Single bits, low bits and shifts of an exclusive or. The functions recur on the count of bits,
-- so that each law is one step of `bit_xor_step`.
use wjmmmdvm.Base.Bits.{
  bit_and_step, bit_xor_step, bit_and-one, bit_and-zero, bit_xor_comm, bit_xor_assoc, bit_xor-zero,
  bit_xor_self,
}
use wjmmmdvm.Base.Tests.{◌==◌}
use mathlib.Core.Path.{◌≡◌, refl, ◌∙◌, ap}
use native.Mathlib.Nat.{pow-suc, one-le-pow}
use native.Mathlib.Omega.{arith}
use Prim.Native.Nat.{ℕ, zero, suc, ◌+◌, ◌*◌, ◌/◌, ◌%◌, ◌^◌, ◌<◌, bit_and, bit_xor}

-- Bit `k`, the `k` low bits, the number without them, and a mask of `k` ones.
unfoldable pub bit : ℕ → ℕ → ℕ
bit zero b = b % 2
bit (suc k) b = bit k (b / 2)

unfoldable pub low : ℕ → ℕ → ℕ
low zero b = 0
low (suc k) b = low k (b / 2) * 2 + b % 2

unfoldable pub high : ℕ → ℕ → ℕ
high zero b = b
high (suc k) b = high k (b / 2)

unfoldable pub ones : ℕ → ℕ
ones zero = 0
ones (suc k) = ones k * 2 + 1

half_xor : (a b : ℕ) → bit_xor a b / 2 ≡ bit_xor (a / 2) (b / 2)
half_xor a b = omega (arith, bit_xor_step a b)

pub bit-lt : (k b : ℕ) → bit k b < 2
unfolding bit
bit-lt zero b = omega arith
bit-lt (suc k) b = bit-lt k (b / 2)

pub bit-bit_xor : (k a b : ℕ) → bit k (bit_xor a b) ≡ (bit k a + bit k b) % 2
unfolding bit
bit-bit_xor zero a b = omega (arith, bit_xor_step a b)
bit-bit_xor (suc k) a b = ap (bit k) (half_xor a b) ∙ bit-bit_xor k (a / 2) (b / 2)

pub high-bit_xor : (k a b : ℕ) → high k (bit_xor a b) ≡ bit_xor (high k a) (high k b)
unfolding high
high-bit_xor zero a b = refl
high-bit_xor (suc k) a b = ap (high k) (half_xor a b) ∙ high-bit_xor k (a / 2) (b / 2)

-- A digit put below a number.
digit_xor :
    (x y p q : ℕ) → p < 2 → q < 2 → bit_xor (x * 2 + p) (y * 2 + q) ≡ bit_xor x y * 2 + (p + q) % 2
digit_xor x y p q hp hq = ground (arith, bit_xor_step (x * 2 + p) (y * 2 + q))

pub low-bit_xor : (k a b : ℕ) → low k (bit_xor a b) ≡ bit_xor (low k a) (low k b)
unfolding low
low-bit_xor zero a b = refl
low-bit_xor (suc k) a b = ground (
  arith,
  bit_xor_step a b,
  half_xor a b,
  low-bit_xor k (a / 2) (b / 2),
  digit_xor (low k (a / 2)) (low k (b / 2)) (a % 2) (b % 2) (omega arith) (omega arith),
)

pub bit_and-ones : (k a : ℕ) → bit_and a (ones k) ≡ low k a
unfolding ones low
bit_and-ones zero a = bit_and-zero a
bit_and-ones (suc k) a = ground (arith, bit_and_step a (ones (suc k)), bit_and-ones k (a / 2))

two_pow : (k : ℕ) → 2 ^ suc k ≡ 2 ^ k * 2
two_pow k = pow-suc 2 k

pub bit_and_single : (k a : ℕ) → bit_and a (2 ^ k) ≡ bit k a * 2 ^ k
unfolding bit
bit_and_single zero a = omega (arith, bit_and-one a)
bit_and_single (suc k) a = ground (
  arith,
  two_pow k,
  bit_and_step a (2 ^ suc k),
  bit_and_single k (a / 2),
  ap (λ (t : ℕ). bit k (a / 2) * t) (two_pow k),
)

-- The test of a single bit by a mask.
pub test_single : (k a : ℕ) → (bit_and a (2 ^ k) == 0) ≡ (bit k a == 0)
test_single k a = grind (arith, bit_and_single k a, bit-lt k a, one-le-pow k 2)

pub xor_swap :
    (a b c d : ℕ) → bit_xor (bit_xor a b) (bit_xor c d) ≡ bit_xor (bit_xor a c) (bit_xor b d)
xor_swap a b c d = cc (
  bit_xor_assoc a b (bit_xor c d),
  bit_xor_assoc b c d,
  bit_xor_assoc a c (bit_xor b d),
  bit_xor_assoc c b d,
  bit_xor_comm b c,
)

pub xor_cancel : (a b : ℕ) → bit_xor (bit_xor a b) b ≡ a
xor_cancel a b = cc (bit_xor_assoc a b b, bit_xor_self b, bit_xor-zero a)
