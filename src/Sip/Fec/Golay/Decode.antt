-- ===== src/Sip/Fec/Golay/Decode.antt =====
-- `golay_23_12` of mmdvm_sip/src/fec/golay.rs as a whole, on its arrays of bits.
use wjmmmdvm.Base.{
  ℕ, ◌+◌, ◌/◌, ◌^◌, ◌≤◌, ◌<◌, bit_xor, ◌≡◌, refl, sym, ap, ap₂, ◌∙◌, arith, List, ◌++◌,
}
use wjmmmdvm.Base.{
  length-drop, drop_all, length, take, drop, All, length-take, length-append, drop-append, take_all,
  replicate,
}
use wjmmmdvm.Base.BitList.{
  IsBit, number, digits_of, digits_of-number, length-digits_of, drop-digits_of,
}
use wjmmmdvm.Base.BitList.{differences, differences-digits_of}
use wjmmmdvm.Sip.Fec.Golay.{
  golay_23_12, check_golay_block, pack_bits, unpack_data, copy_parity, count_errs,
}
use wjmmmdvm.Sip.Fec.Golay.Table.{
  codeword, codeword_lem, Positions, flips, data_flips, count_ones-flips,
}
use wjmmmdvm.Sip.Fec.Golay.Correct.{check_golay_block_corrects, shift-bit_xor, shift_eleven}
use wjmmmdvm.Sip.Fec.Golay.Bits.{pack_bits-number, unpack_data_lem, copy_parity_lem, count_errs_lem}

-- The received bits are a codeword with a few of its bits flipped.
pub record Received (bits : List ℕ) (d : ℕ) (ps : List ℕ) : Type 0 where
  pub size : length bits ≡ 23
  pub are_bits : All IsBit bits
  pub word : number bits ≡ bit_xor (codeword d) (flips ps)
  pub d_small : d < 4096
  pub positions : Positions 23 ps
  pub few : length ps ≤ 3

module _ (bits : List ℕ) (d : ℕ) (ps : List ℕ) (r : Received bits d ps) where
  packed : pack_bits 23 bits 0 ≡ number bits
  unfolding number
  packed =
      pack_bits-number 23 bits 0 r.are_bits (omega arith) (omega arith)
        (ap number (sym (drop_all 23 bits (sym r.size))))

  block_lem : check_golay_block (pack_bits 23 bits 0) ≡ d
  block_lem =
      ap check_golay_block (packed ∙ r.word)
      ∙ check_golay_block_corrects d ps r.d_small r.positions r.few

  out_lem :
      copy_parity 11 bits
        (unpack_data 12 (check_golay_block (pack_bits 23 bits 0)) (replicate 23 0))
      ≡ take 11 bits ++ digits_of 12 d
  out_lem =
      ap (λ b. copy_parity 11 bits (unpack_data 12 b (replicate 23 0))) block_lem
      ∙ ap (copy_parity 11 bits) (unpack_data_lem d r.d_small)
      ∙ copy_parity_lem 11 bits (replicate 11 0 ++ digits_of 12 d) (omega arith) (omega arith)

  data_of_bits : drop 11 bits ≡ digits_of 12 (bit_xor d (flips ps / 2 ^ 11))
  data_of_bits =
      ap (drop 11) (sym (digits_of-number bits r.are_bits))
      ∙ ap (λ n. drop 11 (digits_of n (number bits))) r.size
      ∙ drop-digits_of 11 12 (number bits)
      ∙ ap (digits_of 12) (
          shift_eleven (number bits)
          ∙ ap (λ (w : ℕ). w / 2 ^ 11) r.word
          ∙ shift-bit_xor (codeword d) (flips ps)
          ∙ ap (λ w. bit_xor w (flips ps / 2 ^ 11)) (codeword_lem d r.d_small).1)

  front : length (take 11 bits) ≡ 11
  front = omega (arith, length-take 11 bits, r.size)

  errs_lem : count_errs 12 bits (take 11 bits ++ digits_of 12 d) 0 ≡ data_flips ps
  errs_lem =
      count_errs_lem 12 bits (take 11 bits ++ digits_of 12 d) 0 (omega arith)
        (omega (arith, length-append (take 11 bits) (digits_of 12 d), length-digits_of 12 d, front))
      ∙ ap₂ (λ xs ys. 0 + differences xs ys)
          (ap (take 12) (drop-append 11 (take 11 bits) (digits_of 12 d) (sym front))
            ∙ take_all 12 (digits_of 12 d) (sym (length-digits_of 12 d)))
          (take_all 12 (drop 11 bits) (omega (arith, length-drop 11 bits, r.size)) ∙ data_of_bits)
      ∙ omega (
        arith,
        differences-digits_of 12 d (flips ps / 2 ^ 11),
        count_ones-flips ps r.positions r.few,
      )

  golay_form : golay_23_12 bits ≡ (
      let out =
        copy_parity 11 bits
          (unpack_data 12 (check_golay_block (pack_bits 23 bits 0)) (replicate 23 0)) in
      (out, count_errs 12 bits out 0))
  unfolding golay_23_12
  golay_form = refl

  -- For 23 received bits that are the codeword of 12 data bits `d` with at most three positions
  -- flipped, `golay_23_12` returns the parity bits as received, the 12 bits of `d` in place of
  -- the data bits, and as its error count the number of flipped data positions.
  pub golay_23_12_corrects : golay_23_12 bits ≡ (take 11 bits ++ digits_of 12 d, data_flips ps)
  golay_23_12_corrects =
      golay_form
      ∙ ap (λ out. (out, count_errs 12 bits out 0)) out_lem
      ∙ ap (λ e. (take 11 bits ++ digits_of 12 d, e)) errs_lem
