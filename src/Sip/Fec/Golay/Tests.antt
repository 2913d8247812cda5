-- ===== src/Sip/Fec/Golay/Tests.antt =====
-- The Golay theorems at concrete words.
use wjmmmdvm.Base.{ℕ, ◌≡◌, refl, arith, List, [], ◌∷◌, ◌++◌, bit_xor, take}
use wjmmmdvm.Base.BitList.{number, digits_of}
use wjmmmdvm.Sip.Fec.Golay.{check_golay_block, golay_23_12}
use wjmmmdvm.Sip.Fec.Golay.Table.{codeword, flips, data_flips}
use wjmmmdvm.Sip.Fec.Golay.Correct.{check_golay_block_corrects}
use wjmmmdvm.Sip.Fec.Golay.Decode.{Received, golay_23_12_corrects}

-- The data word 0x5a3, and three flipped bits: two of the data, one of the parity.
abbrev places : List ℕ
places = 22 ∷ 13 ∷ 4 ∷ []

abbrev word : List ℕ
word = digits_of 23 (bit_xor (codeword 0x5a3) (flips places))

word-Received : Received word 0x5a3 places
unfolding number digits_of codeword flips
word-Received = record {
  size = refl;
  are_bits = omega arith;
  word = refl;
  d_small = omega arith;
  positions = omega arith;
  few = omega arith;
}

block_corrected : check_golay_block (bit_xor (codeword 0x5a3) (flips places)) ≡ 0x5a3
block_corrected = check_golay_block_corrects 0x5a3 places (omega arith) (omega arith) (omega arith)

golay_23_12_corrects_example :
    golay_23_12 word ≡ (take 11 word ++ digits_of 12 0x5a3, data_flips places)
golay_23_12_corrects_example = golay_23_12_corrects word 0x5a3 places word-Received
