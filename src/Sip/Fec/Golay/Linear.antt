-- ===== src/Sip/Fec/Golay/Linear.antt =====
-- The syndrome of mmdvm_sip/src/fec/golay.rs is linear over exclusive or.
use wjmmmdvm.Base.{ℕ, zero, suc, ◌/◌, ◌^◌, ◌≤◌, ◌≡◌, refl, ap, ap₂, ◌∙◌, sym, arith}
use wjmmmdvm.Base.{
  List, [], ◌∷◌, length, Bool-cases, inl, inr, not, if◌then◌else◌, ◌==◌, bit_and, bit_xor,
}
use wjmmmdvm.Base.Linear.{bit, bit-lt, bit-bit_xor, low, low-bit_xor, bit_and-ones, test_single}
use wjmmmdvm.Base.Linear.{xor_swap, ones}
use wjmmmdvm.Base.Bits.{bit_xor_comm, bit_xor_assoc, bit_xor-zero, bit_xor_self}
use wjmmmdvm.Sip.Fec.Golay.{ecc_loop, golay_generator, syndrome}
use native.Mathlib.Nat.{pow-suc}

-- What one generator row adds.
abbrev pub row : ℕ → ℕ → ℕ → ℕ
row g k a = if not (bit k a == 0) then g else 0

-- The loop as a sum of rows, for a mask of one bit that does not run out.
unfoldable pub rows : List ℕ → ℕ → ℕ → ℕ
rows [] k a = 0
rows (g ∷ gs) zero a = 0
rows (g ∷ gs) (suc k) a = bit_xor (row g k a) (rows gs k a)

add_row :
    (ecc g k a : ℕ)
    → (if not (bit_and a (2 ^ k) == 0) then bit_xor ecc g else ecc) ≡ bit_xor ecc (row g k a)
add_row ecc g k a =
    rw (test_single k a)
      elim (Bool-cases (bit k a == 0)) [ inl t ↦ rw t (sym (bit_xor-zero ecc)) | inr f ↦ rw f refl ]

half_pow : (k : ℕ) → 2 ^ suc k / 2 ≡ 2 ^ k
half_pow k = omega (arith, pow-suc 2 k)

ecc_loop-rows :
    (gs : List ℕ) (k a ecc : ℕ)
    → length gs ≤ k
    → ecc_loop gs (2 ^ k) a ecc ≡ bit_xor ecc (rows gs (suc k) a)
unfolding ecc_loop rows
ecc_loop-rows [] k a ecc h = sym (bit_xor-zero ecc)
ecc_loop-rows (g ∷ gs) zero a ecc h = absurd (omega arith)
ecc_loop-rows (g ∷ gs) (suc k) a ecc h =
    rw (half_pow k, add_row ecc g (suc k) a)
      (ecc_loop-rows gs k a (bit_xor ecc (row g (suc k) a)) (omega arith)
        ∙ bit_xor_assoc ecc (row g (suc k) a) (rows gs (suc k) a))

row-bit_xor : (g k a b : ℕ) → row g k (bit_xor a b) ≡ bit_xor (row g k a) (row g k b)
row-bit_xor g k a b = ground (
  arith,
  bit-bit_xor k a b,
  bit-lt k a,
  bit-lt k b,
  bit_xor_self g,
  bit_xor-zero g,
  bit_xor_comm 0 g,
)

rows-bit_xor :
    (gs : List ℕ) (k a b : ℕ) → rows gs k (bit_xor a b) ≡ bit_xor (rows gs k a) (rows gs k b)
unfolding rows
rows-bit_xor [] k a b = refl
rows-bit_xor (g ∷ gs) zero a b = refl
rows-bit_xor (g ∷ gs) (suc k) a b =
    rw (row-bit_xor g k a b, rows-bit_xor gs k a b)
      (xor_swap (row g k a) (row g k b) (rows gs k a) (rows gs k b))

ecc_rows : (a : ℕ) → ecc_loop golay_generator 0x40_0000 a 0 ≡ rows golay_generator 23 a
ecc_rows a =
    ecc_loop-rows golay_generator 22 a 0 (omega arith)
    ∙ bit_xor_comm 0 _
    ∙ bit_xor-zero (rows golay_generator 23 a)

syndrome_form : (a : ℕ) → syndrome a ≡ low 11 (bit_xor (rows golay_generator 23 a) (low 11 a))
unfolding syndrome ones
syndrome_form a = bit_and-ones 11 _ ∙ ap (low 11) (ap₂ bit_xor (ecc_rows a) (bit_and-ones 11 a))

pub syndrome-bit_xor : (a b : ℕ) → syndrome (bit_xor a b) ≡ bit_xor (syndrome a) (syndrome b)
syndrome-bit_xor a b =
    let gen : List ℕ = golay_generator in
    syndrome_form (bit_xor a b)
    ∙ ap (low 11) (
        ap₂ bit_xor (rows-bit_xor gen 23 a b) (low-bit_xor 11 a b)
        ∙ xor_swap (rows gen 23 a) (rows gen 23 b) (low 11 a) (low 11 b))
    ∙ low-bit_xor 11 (bit_xor (rows gen 23 a) (low 11 a)) (bit_xor (rows gen 23 b) (low 11 b))
    ∙ ap₂ bit_xor (sym (syndrome_form a)) (sym (syndrome_form b))
