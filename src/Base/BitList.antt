-- ===== src/Base/BitList.antt =====
-- Words as lists of bits, lowest first.
use wjmmmdvm.Base.Tests.{◌==◌, if◌then◌else◌}
use wjmmmdvm.Base.Lists.{length, drop, All}
use wjmmmdvm.Base.Linear.{high}
use mathlib.Core.Path.{◌≡◌, refl, ap, ap₂, ◌∙◌}
use mathlib.Core.Bool.{Bool, true, false, ◌&&◌, not}
use mathlib.Core.List.{List, [], ◌∷◌, ◌++◌}
use native.Mathlib.Nat.{pow-suc}
use native.Mathlib.Omega.{arith}
use Prim.Native.Nat.{ℕ, zero, suc, ◌+◌, ◌*◌, ◌/◌, ◌%◌, ◌^◌, ◌<◌, bit_xor}
use wjmmmdvm.Base.Bits.{bit_xor_step}

abbrev pub IsBit : ℕ → Type 0
IsBit b = b < 2

unfoldable pub number : List ℕ → ℕ
number [] = 0
number (b ∷ bs) = number bs * 2 + b

unfoldable pub digits_of : ℕ → ℕ → List ℕ
digits_of zero d = []
digits_of (suc n) d = d % 2 ∷ digits_of n (d / 2)

pub digits_of-number : (bs : List ℕ) → All IsBit bs → digits_of (length bs) (number bs) ≡ bs
unfolding digits_of number
digits_of-number [] h = refl
digits_of-number (b ∷ bs) h =
    ap₂ ◌∷◌ (omega arith) (ap (digits_of (length bs)) (omega arith) ∙ digits_of-number bs h.1)

pub length-digits_of : (n d : ℕ) → length (digits_of n d) ≡ n
unfolding digits_of
length-digits_of zero d = refl
length-digits_of (suc n) d = ap suc (length-digits_of n (d / 2))

pub digits_of-IsBit : (n d : ℕ) → All IsBit (digits_of n d)
unfolding digits_of
digits_of-IsBit zero d = tt
digits_of-IsBit (suc n) d = (omega arith, digits_of-IsBit n (d / 2))

-- How many places of two lists differ.
unfoldable pub differences : List ℕ → List ℕ → ℕ
differences [] ys = 0
differences (x ∷ xs) [] = 0
differences (x ∷ xs) (y ∷ ys) = (if not (x == y) then 1 else 0) + differences xs ys

unfoldable pub count_ones : ℕ → ℕ → ℕ
count_ones zero d = 0
count_ones (suc n) d = d % 2 + count_ones n (d / 2)

pub differences-digits_of :
    (n d e : ℕ) → differences (digits_of n d) (digits_of n (bit_xor d e)) ≡ count_ones n e
unfolding differences digits_of count_ones
differences-digits_of zero d e = refl
differences-digits_of (suc n) d e =
    ground (arith, bit_xor_step d e, differences-digits_of n (d / 2) (e / 2), half)
  where
    half : bit_xor d e / 2 ≡ bit_xor (d / 2) (e / 2)
    half = omega (arith, bit_xor_step d e)

-- A test of two lists for equality.
unfoldable pub same : List ℕ → List ℕ → Bool
same [] [] = true
same [] (y ∷ ys) = false
same (x ∷ xs) [] = false
same (x ∷ xs) (y ∷ ys) = x == y && same xs ys

pub same_sound : (xs ys : List ℕ) → same xs ys ≡ true → xs ≡ ys
unfolding same
same_sound [] [] h = refl
same_sound [] (y ∷ ys) h = cc
same_sound (x ∷ xs) [] h = cc
same_sound (x ∷ xs) (y ∷ ys) h = ground (arith, same_sound xs ys)

pub differences-append :
    (xs ys : List ℕ) (x y : ℕ)
    → length xs ≡ length ys
    → differences (xs ++ (x ∷ [])) (ys ++ (y ∷ []))
      ≡ differences xs ys + (if not (x == y) then 1 else 0)
unfolding differences
differences-append [] [] x y h = omega arith
differences-append [] (b ∷ ys) x y h = absurd (omega arith)
differences-append (a ∷ xs) [] x y h = absurd (omega arith)
differences-append (a ∷ xs) (b ∷ ys) x y h = omega (arith, differences-append xs ys x y)

pub drop-digits_of : (k n d : ℕ) → drop k (digits_of (k + n) d) ≡ digits_of n (high k d)
unfolding digits_of high
drop-digits_of zero n d = let e : 0 + n ≡ n = omega arith in ap (λ m. digits_of m d) e
drop-digits_of (suc k) n d =
    let e : suc k + n ≡ suc (k + n) = omega arith in
    ap (λ m. drop (suc k) (digits_of m d)) e ∙ drop-digits_of k n (d / 2)

pub number-digits_of : (n d : ℕ) → d < 2 ^ n → number (digits_of n d) ≡ d
unfolding number digits_of
number-digits_of zero d h = omega arith
number-digits_of (suc n) d h =
    omega (arith, number-digits_of n (d / 2) (omega (arith, pow-suc 2 n)))
