-- ===== src/Sip/Fec/Golay/Table.antt =====
-- Every error of at most three of the 23 bits, looked up in mmdvm_sip/src/fec/golay_matrix.rs, and
-- every codeword, by evaluation.
use wjmmmdvm.Base.{◌+◌, ℕ, ◌*◌, ◌/◌, ◌^◌, ◌≤◌, ◌<◌, bit_and, bit_or, bit_xor, ◌≡◌, refl, arith}
use wjmmmdvm.Base.{
  List, [], ◌∷◌, Bool, true, ◌&&◌, ◌==◌, ==_iff, ltb, if◌then◌else◌, get_or, length,
}
use wjmmmdvm.Base.BitList.{count_ones}
use wjmmmdvm.Base.Below.{all_below, all_below_sound}
use wjmmmdvm.Sip.Fec.Golay.Matrix.{golay_matrix}
use wjmmmdvm.Sip.Fec.Golay.{ecc_loop, golay_generator, syndrome}

-- The codeword of 12 data bits: the data above their parity.
unfoldable pub codeword : ℕ → ℕ
unfolding ecc_loop
codeword d = bit_or (d * 2 ^ 11) (bit_and (ecc_loop golay_generator 0x800 d 0) 0x7ff)

-- A set of bit positions below `n`, in falling order, and the word with just these bits.
abbrev pub Positions : ℕ → List ℕ → Type 0
Positions n [] = Unit {0}
Positions n (p ∷ ps) = (p < n) × Positions p ps

unfoldable pub flips : List ℕ → ℕ
flips [] = 0
flips (p ∷ ps) = bit_xor (2 ^ p) (flips ps)

-- A test of every set of at most three positions.
all_positions : (List ℕ → Bool) → Bool
unfolding all_below
all_positions t =
    t []
    && all_below 23 (λ i. t (i ∷ []))
    && all_below 23 (λ i. all_below i (λ j. t (i ∷ j ∷ [])))
    && all_below 23 (λ i. all_below i (λ j. all_below j (λ k. t (i ∷ j ∷ k ∷ []))))

all_positions_parts :
    (a b c d : Bool) → (a && b && c && d) ≡ true → (a ≡ true) × (b ≡ true) × (c ≡ true) × (d ≡ true)
all_positions_parts a b c d h = ground arith

all_positions_sound :
    (t : List ℕ → Bool)
    → all_positions t ≡ true
    → (ps : List ℕ) → Positions 23 ps
    → length ps ≤ 3
    → t ps ≡ true
all_positions_sound t h ps below few = at ps below few
  where
    parts :
        (t [] ≡ true)
        × (all_below 23 (λ i. t (i ∷ [])) ≡ true)
        × (all_below 23 (λ i. all_below i (λ j. t (i ∷ j ∷ []))) ≡ true)
        × (all_below 23 (λ i. all_below i (λ j. all_below j (λ k. t (i ∷ j ∷ k ∷ [])))) ≡ true)
    parts = unfold all_positions in all_positions_parts _ _ _ _ h

    at : (qs : List ℕ) → Positions 23 qs → length qs ≤ 3 → t qs ≡ true
    at [] b f = parts.0
    at (i ∷ []) b f = all_below_sound 23 _ parts.1 i b.0
    at (i ∷ j ∷ []) b f = all_below_sound i _ (all_below_sound 23 _ parts.2 i b.0) j b.1.0
    at (i ∷ j ∷ k ∷ []) b f =
        all_below_sound j _ (all_below_sound i _ (all_below_sound 23 _ parts.3 i b.0) j b.1.0) k
          b.1.1.0
    at (i ∷ j ∷ k ∷ l ∷ qs) b f = absurd (omega arith)

matrix_table :
    all_positions (λ ps. get_or golay_matrix (syndrome (flips ps)) 0 == flips ps / 2 ^ 11) ≡ true
unfolding all_positions syndrome golay_matrix flips
matrix_table = refl

-- The table gives the data part of every error of at most three bits.
pub matrix-flips :
    (ps : List ℕ)
    → Positions 23 ps
    → length ps ≤ 3
    → get_or golay_matrix (syndrome (flips ps)) 0 ≡ flips ps / 2 ^ 11
matrix-flips ps h k = (==_iff _ _).0 (all_positions_sound _ matrix_table ps h k)

-- How many of the positions are data bits, which stand above the 11 parity bits.
unfoldable pub data_flips : List ℕ → ℕ
data_flips [] = 0
data_flips (p ∷ ps) = (if ltb p 11 then 0 else 1) + data_flips ps

count_table : all_positions (λ ps. count_ones 12 (flips ps / 2 ^ 11) == data_flips ps) ≡ true
unfolding all_positions flips data_flips count_ones
count_table = refl

pub count_ones-flips :
    (ps : List ℕ)
    → Positions 23 ps
    → length ps ≤ 3
    → count_ones 12 (flips ps / 2 ^ 11) ≡ data_flips ps
count_ones-flips ps h k = (==_iff _ _).0 (all_positions_sound _ count_table ps h k)

codeword_table : all_below 4096 (λ d. syndrome (codeword d) == 0 && codeword d / 2 ^ 11 == d) ≡ true
unfolding syndrome codeword all_below
codeword_table = refl

pub codeword_lem : (d : ℕ) → d < 4096 → (syndrome (codeword d) ≡ 0) × (codeword d / 2 ^ 11 ≡ d)
codeword_lem d h = ground (arith, all_below_sound 4096 _ codeword_table d h)
