-- ===== src/Sip/Fec/Golay/Correct.antt =====
-- The decoder of mmdvm_sip/src/fec/golay.rs corrects every error of at most three bits.
use wjmmmdvm.Base.{ℕ, ◌/◌, ◌^◌, ◌≤◌, ◌<◌, bit_xor, ◌≡◌, sym, ap₂, ◌∙◌, arith, List, length}
use wjmmmdvm.Base.Linear.{high, high-bit_xor, xor_cancel}
use wjmmmdvm.Base.Bits.{bit_xor_comm, bit_xor-zero}
use wjmmmdvm.Sip.Fec.Golay.{syndrome, check_golay_block}
use wjmmmdvm.Sip.Fec.Golay.Linear.{syndrome-bit_xor}
use wjmmmdvm.Sip.Fec.Golay.Table.{codeword, codeword_lem, Positions, flips, matrix-flips}

pub shift_eleven : (a : ℕ) → high 11 a ≡ a / 2 ^ 11
unfolding high
shift_eleven a = omega arith

pub shift-bit_xor : (a b : ℕ) → bit_xor a b / 2 ^ 11 ≡ bit_xor (a / 2 ^ 11) (b / 2 ^ 11)
shift-bit_xor a b =
    sym (shift_eleven (bit_xor a b))
    ∙ high-bit_xor 11 a b
    ∙ ap₂ bit_xor (shift_eleven a) (shift_eleven b)

-- For every 12-bit word `d` and every set of at most three of the 23 positions,
-- `check_golay_block` on the codeword of `d` with these positions flipped returns `d`.
pub check_golay_block_corrects :
    (d : ℕ) (ps : List ℕ)
    → d < 4096
    → Positions 23 ps
    → length ps ≤ 3
    → check_golay_block (bit_xor (codeword d) (flips ps)) ≡ d
unfolding check_golay_block
check_golay_block_corrects d ps hd h k =
    rw
      (
        shift-bit_xor (codeword d) (flips ps),
        syndrome-bit_xor (codeword d) (flips ps),
        (codeword_lem d hd).0,
        (codeword_lem d hd).1,
        bit_xor_comm 0 (syndrome (flips ps)),
        bit_xor-zero (syndrome (flips ps)),
        matrix-flips ps h k,
      )
      (xor_cancel d (flips ps / 2 ^ 11))
