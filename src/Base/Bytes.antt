-- ===== src/Base/Bytes.antt =====
-- Bytes and their eight bits, the highest first.
use wjmmmdvm.Base.Tests.{◌==◌}
use wjmmmdvm.Base.Lists.{length, get_or, All, take_all}
use wjmmmdvm.Base.Bits.{bit_and-one}
use wjmmmdvm.Base.Below.{all_below, all_below_sound}
use wjmmmdvm.Base.BitList.{IsBit}
use wjmmmdvm.Base.Index.{elements, elements_lem, All-get_or_any}
use mathlib.Core.Path.{◌≡◌, refl, sym, ap, ap₂, ◌∙◌}
use mathlib.Core.Bool.{true}
use mathlib.Core.List.{List, [], ◌∷◌}
use native.Mathlib.Omega.{arith}
use Prim.Native.Nat.{ℕ, zero, suc, ◌+◌, ◌-◌, ◌*◌, ◌/◌, ◌^◌, ◌<◌, bit_and, bit_or}

-- `for bit in from..from + n { bits[..] = (byte >> (7 - bit)) & 1 }`
unfoldable pub byte_bits : ℕ → ℕ → ℕ → List ℕ
byte_bits zero bit byte = []
byte_bits (suc n) bit byte = bit_and (byte / 2 ^ (7 - bit)) 1 ∷ byte_bits n (suc bit) byte

-- `byte |= (bit & 1) << (7 - j)` for each bit, from place `j` on.
unfoldable pub or_bits : ℕ → List ℕ → ℕ → ℕ
or_bits j [] byte = byte
or_bits j (b ∷ bits) byte = or_bits (suc j) bits (bit_or byte (bit_and b 1 * 2 ^ (7 - j)))

unfoldable pub byte_of : List ℕ → ℕ
byte_of b =
    get_or b 0 0 * 128
    + get_or b 1 0 * 64
    + get_or b 2 0 * 32
    + get_or b 3 0 * 16
    + get_or b 4 0 * 8
    + get_or b 5 0 * 4
    + get_or b 6 0 * 2
    + get_or b 7 0

bits_of_sum :
    (a b c d e f g h : ℕ)
    → IsBit a
    → IsBit b
    → IsBit c
    → IsBit d
    → IsBit e
    → IsBit f
    → IsBit g
    → IsBit h
    → byte_bits 8 0 (a * 128 + b * 64 + c * 32 + d * 16 + e * 8 + f * 4 + g * 2 + h)
      ≡ a ∷ b ∷ c ∷ d ∷ e ∷ f ∷ g ∷ h ∷ []
unfolding byte_bits
bits_of_sum a b c d e f g h ha hb hc hd he hf hg hh = ap₂ ◌∷◌ (bit_and-one _ ∙ omega arith) (
    ap₂ ◌∷◌ (bit_and-one _ ∙ omega arith) (
      ap₂ ◌∷◌ (bit_and-one _ ∙ omega arith) (
        ap₂ ◌∷◌ (bit_and-one _ ∙ omega arith) (
          ap₂ ◌∷◌ (bit_and-one _ ∙ omega arith) (
            ap₂ ◌∷◌ (bit_and-one _ ∙ omega arith) (
              ap₂ ◌∷◌ (bit_and-one _ ∙ omega arith)
                (ap (λ x. x ∷ []) (bit_and-one _ ∙ omega arith))))))))

pub byte_bits-byte_of :
    (bits : List ℕ) → All IsBit bits → length bits ≡ 8 → byte_bits 8 0 (byte_of bits) ≡ bits
unfolding byte_of elements
byte_bits-byte_of bits h e =
    bits_of_sum _ _ _ _ _ _ _ _ (at 0) (at 1) (at 2) (at 3) (at 4) (at 5) (at 6) (at 7)
    ∙ elements_lem 8 0 bits (omega arith)
    ∙ take_all 8 bits (sym e)
  where
    at : (i : ℕ) → IsBit (get_or bits i 0)
    at i = All-get_or_any IsBit bits i 0 h (omega arith)

byte_of-lt : (bits : List ℕ) → All IsBit bits → byte_of bits < 256
unfolding byte_of
byte_of-lt bits h = omega (arith, at 0, at 1, at 2, at 3, at 4, at 5, at 6, at 7)
  where
    at : (i : ℕ) → IsBit (get_or bits i 0)
    at i = All-get_or_any IsBit bits i 0 h (omega arith)

or_bits_table : all_below 256 (λ v. or_bits 0 (byte_bits 8 0 v) 0 == v) ≡ true
unfolding all_below or_bits byte_bits
or_bits_table = refl

or_bits-byte_bits : (v : ℕ) → v < 256 → or_bits 0 (byte_bits 8 0 v) 0 ≡ v
or_bits-byte_bits v h = ground (arith, all_below_sound 256 _ or_bits_table v h)

pub or_bits-byte_of :
    (bits : List ℕ) → All IsBit bits → length bits ≡ 8 → or_bits 0 bits 0 ≡ byte_of bits
or_bits-byte_of bits h e =
    ap (λ bs. or_bits 0 bs 0) (sym (byte_bits-byte_of bits h e))
    ∙ or_bits-byte_bits (byte_of bits) (byte_of-lt bits h)

-- The bits that `or_bits` packs into a byte are read back from it.
pub byte_bits-or_bits :
    (bits : List ℕ) → All IsBit bits → length bits ≡ 8 → byte_bits 8 0 (or_bits 0 bits 0) ≡ bits
byte_bits-or_bits bits h e =
    ap (byte_bits 8 0) (or_bits-byte_of bits h e) ∙ byte_bits-byte_of bits h e

pub or_bits-lt : (bits : List ℕ) → All IsBit bits → length bits ≡ 8 → or_bits 0 bits 0 < 256
or_bits-lt bits h e = omega (arith, or_bits-byte_of bits h e, byte_of-lt bits h)
