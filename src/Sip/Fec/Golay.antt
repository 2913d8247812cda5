-- ===== src/Sip/Fec/Golay.antt =====
-- mmdvm_sip/src/fec/golay.rs: the Golay(23,12) decoder.
-- A `u32` is a number below 2 ^ 32; `&`, `|` and `^` are the native bit operations.
pub mod Matrix
pub mod Linear
pub mod Correct
pub mod Bits
pub mod Decode
mod Tests
pub mod Table
use wjmmmdvm.Base.{ℕ, zero, suc, ◌+◌, ◌-◌, ◌*◌, ◌/◌, ◌%◌, ◌^◌, bit_and, bit_or, bit_xor}
use wjmmmdvm.Base.{List, [], ◌∷◌, not, if◌then◌else◌, ◌==◌, get_or, set, replicate}
use Matrix.{golay_matrix}

abbrev pub golay_generator : List ℕ
golay_generator =
    0x63a ∷ 0x31d ∷ 0x7b4 ∷ 0x3da ∷ 0x1ed ∷ 0x6cc ∷ 0x366 ∷ 0x1b3 ∷ 0x6e3 ∷ 0x54b ∷ 0x49f ∷ 0x475
    ∷ []

-- The loop over the generator, with its shifting mask.
unfoldable pub ecc_loop : List ℕ → ℕ → ℕ → ℕ → ℕ
ecc_loop [] mask block ecc = ecc
ecc_loop (g ∷ gs) mask block ecc =
    ecc_loop gs (mask / 2) block (if not (bit_and block mask == 0) then bit_xor ecc g else ecc)

unfoldable pub syndrome : ℕ → ℕ
unfolding ecc_loop
syndrome block =
    let ecc_expected = ecc_loop golay_generator 0x40_0000 block 0 in
    let ecc_bits = bit_and block 0x7ff in bit_and (bit_xor ecc_expected ecc_bits) 0x7ff

unfoldable pub check_golay_block : ℕ → ℕ
unfolding syndrome golay_matrix
check_golay_block block = bit_xor (block / 2 ^ 11) (get_or golay_matrix (syndrome block) 0)

-- `for i in (0..n).rev() { block = (block << 1) | bits[i] }`
unfoldable pub pack_bits : ℕ → List ℕ → ℕ → ℕ
pack_bits zero bits block = block
pack_bits (suc i) bits block = pack_bits i bits (bit_or (block * 2 % 2 ^ 32) (get_or bits i 0))

-- `for i in (11..11 + n).rev() { out[i] = ((b & 2048) >> 11) as u8; b <<= 1 }`
unfoldable pub unpack_data : ℕ → ℕ → List ℕ → List ℕ
unpack_data zero b out = out
unpack_data (suc i) b out =
    unpack_data i (b * 2 % 2 ^ 32) (set out (11 + i) (bit_and b 2048 / 2 ^ 11 % 2 ^ 8))

-- `for i in (0..n).rev() { out[i] = bits[i] }`
unfoldable pub copy_parity : ℕ → List ℕ → List ℕ → List ℕ
copy_parity zero bits out = out
copy_parity (suc i) bits out = copy_parity i bits (set out i (get_or bits i 0))

-- `for i in (11..11 + n).rev() { if out[i] != bits[i] { errs += 1 } }`
unfoldable pub count_errs : ℕ → List ℕ → List ℕ → ℕ → ℕ
count_errs zero bits out errs = errs
count_errs (suc i) bits out errs =
    count_errs i bits out
      (if not (get_or out (11 + i) 0 == get_or bits (11 + i) 0) then errs + 1 else errs)

unfoldable pub golay_23_12 : List ℕ → List ℕ × ℕ
unfolding check_golay_block pack_bits unpack_data copy_parity count_errs
golay_23_12 bits =
    let block = check_golay_block (pack_bits 23 bits 0) in
    let out = copy_parity 11 bits (unpack_data 12 block (replicate 23 0)) in
    (out, count_errs 12 bits out 0)
