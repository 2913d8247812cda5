-- ===== src/Sip/Fec/Ambe.antt =====
-- mmdvm_sip/src/fec/ambe.rs: from the 72 bits of a DMR voice frame to its 49 voice bits.
-- An `AmbeFr` is a list of four rows of 24 bits; the first two rows are Golay codewords.
pub mod Scramble
pub mod Strip
mod Tests
use wjmmmdvm.Base.{ℕ, zero, suc, ◌+◌, ◌*◌, ◌/◌, ◌%◌, ◌^◌, bit_and, bit_or, bit_xor}
use wjmmmdvm.Base.{List, [], ◌∷◌, ◌++◌, map, get_or, set, take, drop}
use wjmmmdvm.Sip.Fec.Golay.{golay_23_12}

abbrev pub AmbeFr : Type 0
AmbeFr = List (List ℕ)

abbrev pub frame_row : AmbeFr → ℕ → List ℕ
frame_row fr r = get_or fr r []

-- `ecc_c0`: the decoder runs over positions 1 to 23 of row 0.
unfoldable pub ecc_c0 : AmbeFr → AmbeFr × ℕ
ecc_c0 fr =
    let c0 = frame_row fr 0 in
    let (out, errs) = golay_23_12 (take 23 (drop 1 c0)) in (set fr 0 (take 1 c0 ++ out), errs)

-- `for i in (12..12 + n).rev() { foo = (foo << 1) | fr[0][i] }`
unfoldable pub seed_loop : ℕ → List ℕ → ℕ → ℕ
seed_loop zero c0 foo = foo
seed_loop (suc i) c0 foo = seed_loop i c0 (bit_or (foo * 2 % 2 ^ 32) (get_or c0 (12 + i) 0))

-- `pr[1..=n]`, from the value before them.
unfoldable pub scramble_sequence : ℕ → ℕ → List ℕ
scramble_sequence zero prev = []
scramble_sequence (suc n) prev =
    let nxt = (173 * prev % 2 ^ 32 + 13849) % 2 ^ 32 in
    let pr = bit_and nxt 0xffff in pr ∷ scramble_sequence n pr

-- The 23 scramble bits for the seed `foo`.
unfoldable pub scramble_bits : ℕ → List ℕ
unfolding scramble_sequence
scramble_bits foo = map (λ p. p / 32768) (scramble_sequence 23 (16 * foo % 2 ^ 32))

-- `for j in (0..n).rev() { fr[1][j] ^= pr[k] as u8; k += 1 }`
unfoldable pub xor_down : ℕ → List ℕ → List ℕ → List ℕ
xor_down zero pr c1 = c1
xor_down (suc j) [] c1 = c1
xor_down (suc j) (p ∷ pr) c1 = xor_down j pr (set c1 j (bit_xor (get_or c1 j 0) (p % 2 ^ 8)))

unfoldable pub demodulate : AmbeFr → AmbeFr
unfolding seed_loop scramble_bits xor_down
demodulate fr =
    let foo = seed_loop 12 (frame_row fr 0) 0 in
    set fr 1 (xor_down 23 (scramble_bits foo) (frame_row fr 1))

-- `for j in (off..off + n).rev() { ambe[idx] = row[j]; idx += 1 }`
unfoldable pub read_down : ℕ → ℕ → List ℕ → List ℕ
read_down zero off row = []
read_down (suc i) off row = get_or row (off + i) 0 ∷ read_down i off row

unfoldable pub ecc_data : AmbeFr → List ℕ × ℕ
unfolding read_down
ecc_data fr =
    let (c1_out, errs) = golay_23_12 (take 23 (frame_row fr 1)) in
    (
      read_down 12 12 (frame_row fr 0)
          ++ (read_down 12 11 c1_out
              ++ (read_down 11 0 (frame_row fr 2) ++ read_down 14 0 (frame_row fr 3))),
      errs,
    )

unfoldable pub strip_fec : AmbeFr → List ℕ × ℕ
unfolding ecc_c0 demodulate ecc_data
strip_fec fr =
    let (corrected, errs_c0) = ecc_c0 fr in
    let (voice, errs) = ecc_data (demodulate corrected) in (voice, errs_c0 + errs)
