-- ===== src/Sip/Fec/Ambe/Strip.antt =====
-- `strip_fec` of mmdvm_sip/src/fec/ambe.rs on a frame as it is transmitted: two Golay codewords with
-- a few bits flipped, the second one scrambled with the data of the first, and 25 bits without code.
use wjmmmdvm.Base.{ℕ, zero, suc, ◌+◌, ◌*◌, ◌%◌, ◌^◌, ◌≤◌, ◌≡◌, refl, sym, ap, ap₂, ◌∙◌, arith}
use wjmmmdvm.Base.{
  List, [], ◌∷◌, ◌++◌, length, take, drop, get_or, length-append, take-append, drop-append,
  take_all, bit_or,
}
use wjmmmdvm.Base.{length-take, drop_all}
use wjmmmdvm.Base.Index.{get_or-drop, take-suc}
use wjmmmdvm.Base.BitList.{digits_of, number, length-digits_of, digits_of-IsBit, number-digits_of}
use wjmmmdvm.Sip.Fec.Golay.{golay_23_12, pack_bits}
use wjmmmdvm.Sip.Fec.Golay.Bits.{pack_bits-number}
use wjmmmdvm.Sip.Fec.Golay.Table.{data_flips}
use wjmmmdvm.Sip.Fec.Golay.Decode.{Received, golay_23_12_corrects}
use wjmmmdvm.Sip.Fec.Ambe.{
  AmbeFr, ecc_c0, demodulate, ecc_data, strip_fec, seed_loop, scramble_bits,
}
use wjmmmdvm.Sip.Fec.Ambe.{xor_down, read_down}
use wjmmmdvm.Sip.Fec.Ambe.Scramble.{xor_down_twice, length-scramble_bits, demodulate_form}
use mathlib.Core.List.{reverse, reverse-append}

-- A run read downwards is the run reversed.
pub read_down-reverse :
    (n off : ℕ) (row : List ℕ)
    → n ≤ length (drop off row)
    → read_down n off row ≡ reverse (take n (drop off row))
unfolding read_down
read_down-reverse zero off row h = refl
read_down-reverse (suc n) off row h =
    ap₂ ◌∷◌ (sym (get_or-drop off n row 0)) (read_down-reverse n off row (omega arith))
    ∙ sym (
        ap reverse (take-suc n (drop off row) 0 (omega arith))
        ∙ reverse-append (take n (drop off row)) (get_or (drop off row) n 0 ∷ []))

-- The seed is packed from the first row as the decoder packs its block.
seed_loop-pack_bits :
    (n : ℕ) (c0 : List ℕ) (foo : ℕ) → seed_loop n c0 foo ≡ pack_bits n (drop 12 c0) foo
unfolding seed_loop pack_bits
seed_loop-pack_bits zero c0 foo = refl
seed_loop-pack_bits (suc n) c0 foo =
    rw (get_or-drop 12 n c0 0)
      (seed_loop-pack_bits n c0 (bit_or (foo * 2 % 2 ^ 32) (get_or c0 (12 + n) 0)))

module _ (parity : ℕ) (bits₀ : List ℕ) (d₀ : ℕ) (ps₀ : List ℕ) (r₀ : Received bits₀ d₀ ps₀)
    (last : ℕ) (bits₁ : List ℕ) (d₁ : ℕ) (ps₁ : List ℕ) (r₁ : Received bits₁ d₁ ps₁)
    (c2 c3 : List ℕ) where
  -- The corrected words.
  abbrev word₀ : List ℕ
  word₀ = take 11 bits₀ ++ digits_of 12 d₀

  abbrev word₁ : List ℕ
  word₁ = take 11 bits₁ ++ digits_of 12 d₁

  abbrev plain : List ℕ
  plain = bits₁ ++ last ∷ []

  abbrev pub transmitted : AmbeFr
  transmitted = (parity ∷ bits₀) ∷ xor_down 23 (scramble_bits d₀) plain ∷ c2 ∷ c3 ∷ []

  data_of_word :
      (bits : List ℕ) (d : ℕ)
      → length bits ≡ 23
      → drop 11 (take 11 bits ++ digits_of 12 d) ≡ digits_of 12 d
  data_of_word bits d h =
      drop-append 11 (take 11 bits) (digits_of 12 d) (omega (arith, length-take 11 bits))

  sent₁ : List ℕ
  sent₁ = xor_down 23 (scramble_bits d₀) plain

  ecc_c0_lem : ecc_c0 transmitted ≡ ((parity ∷ word₀) ∷ sent₁ ∷ c2 ∷ c3 ∷ [], data_flips ps₀)
  unfolding ecc_c0 sent₁
  ecc_c0_lem =
      ap (λ (r : List ℕ × ℕ). ((parity ∷ r.0) ∷ sent₁ ∷ c2 ∷ c3 ∷ [], r.1))
        (ap golay_23_12 (take_all 23 bits₀ (sym r₀.size)) ∙ golay_23_12_corrects bits₀ d₀ ps₀ r₀)

  seed_lem : seed_loop 12 (parity ∷ word₀) 0 ≡ d₀
  unfolding number
  seed_lem =
      seed_loop-pack_bits 12 (parity ∷ word₀) 0
      ∙ ap (λ bs. pack_bits 12 bs 0) (data_of_word bits₀ d₀ r₀.size)
      ∙ pack_bits-number 12 (digits_of 12 d₀) 0 (digits_of-IsBit 12 d₀)
          (omega (arith, length-digits_of 12 d₀)) (omega arith)
          (ap number (sym (drop_all 12 (digits_of 12 d₀) (sym (length-digits_of 12 d₀)))))
      ∙ number-digits_of 12 d₀ r₀.d_small

  demodulate_lem :
      demodulate ((parity ∷ word₀) ∷ sent₁ ∷ c2 ∷ c3 ∷ []) ≡ (parity ∷ word₀) ∷ plain ∷ c2 ∷ c3 ∷ []
  unfolding sent₁
  demodulate_lem =
      demodulate_form (parity ∷ word₀) sent₁ c2 c3
      ∙ ap (λ r. (parity ∷ word₀) ∷ r ∷ c2 ∷ c3 ∷ [])
          (ap (λ d. xor_down 23 (scramble_bits d) sent₁) seed_lem
            ∙ xor_down_twice 23 (scramble_bits d₀) plain (omega (arith, length-scramble_bits d₀))
                (omega (arith, r₁.size, length-append bits₁ (last ∷ []))))

  data_row :
      (d : ℕ) (row : List ℕ)
      → drop 11 row ≡ digits_of 12 d
      → read_down 12 11 row ≡ reverse (digits_of 12 d)
  data_row d row e =
      read_down-reverse 12 11 row (rw e (omega (arith, length-digits_of 12 d)))
      ∙ ap (λ bs. reverse (take 12 bs)) e
      ∙ ap reverse (take_all 12 (digits_of 12 d) (sym (length-digits_of 12 d)))

  ecc_data_form :
      (row₀ row₁ : List ℕ)
      → ecc_data (row₀ ∷ row₁ ∷ c2 ∷ c3 ∷ []) ≡ (
          let (c1_out, errs) = golay_23_12 (take 23 row₁) in
          (
            read_down 12 12 row₀
                ++ (read_down 12 11 c1_out ++ (read_down 11 0 c2 ++ read_down 14 0 c3)),
            errs,
          ))
  unfolding ecc_data
  ecc_data_form row₀ row₁ = refl

  abbrev pub voice : List ℕ
  voice =
      reverse (digits_of 12 d₀)
      ++ (reverse (digits_of 12 d₁) ++ (reverse (take 11 c2) ++ reverse (take 14 c3)))

  decoded₁ : golay_23_12 (take 23 plain) ≡ (word₁, data_flips ps₁)
  decoded₁ =
      ap golay_23_12 (take-append 23 bits₁ (last ∷ []) (sym r₁.size))
      ∙ golay_23_12_corrects bits₁ d₁ ps₁ r₁

  low_row : read_down 12 12 (parity ∷ word₀) ≡ reverse (digits_of 12 d₀)
  low_row =
      read_down-reverse 12 12 (parity ∷ word₀)
        (rw (data_of_word bits₀ d₀ r₀.size) (omega (arith, length-digits_of 12 d₀)))
      ∙ ap (λ bs. reverse (take 12 bs)) (data_of_word bits₀ d₀ r₀.size)
      ∙ ap reverse (take_all 12 (digits_of 12 d₀) (sym (length-digits_of 12 d₀)))

  ecc_data_lem :
      11 ≤ length c2
      → 14 ≤ length c3
      → ecc_data ((parity ∷ word₀) ∷ plain ∷ c2 ∷ c3 ∷ []) ≡ (voice, data_flips ps₁)
  ecc_data_lem h k =
      ecc_data_form (parity ∷ word₀) plain
      ∙ ap
          (λ (r : List ℕ × ℕ). (
            read_down 12 12 (parity ∷ word₀)
                ++ (read_down 12 11 r.0 ++ (read_down 11 0 c2 ++ read_down 14 0 c3)),
            r.1,
          ))
          decoded₁
      ∙ ap (λ vs. (vs, data_flips ps₁))
          (ap₂ ◌++◌ low_row (
            ap₂ ◌++◌ (data_row d₁ word₁ (data_of_word bits₁ d₁ r₁.size))
              (ap₂ ◌++◌ (read_down-reverse 11 0 c2 h) (read_down-reverse 14 0 c3 k))))

  -- For a frame whose first two rows are the codewords of 12 data bits each, each with at most
  -- three positions flipped, the second scrambled from the data of the first, and whose last two
  -- rows have at least 11 and 14 bits, `strip_fec` returns the data of the two codewords, then 11
  -- bits of the third row and 14 of the fourth, each highest position first, and the number of
  -- flipped data positions in both codewords.
  pub strip_fec_recovers :
      11 ≤ length c2
      → 14 ≤ length c3
      → strip_fec transmitted ≡ (voice, data_flips ps₀ + data_flips ps₁)
  unfolding strip_fec sent₁
  strip_fec_recovers h k =
      ap strip_second ecc_c0_lem
      ∙ ap (λ fr. count_both (ecc_data fr)) demodulate_lem
      ∙ ap count_both (ecc_data_lem h k)
    where
      count_both : List ℕ × ℕ → List ℕ × ℕ
      count_both r = (r.0, data_flips ps₀ + r.1)

      strip_second : AmbeFr × ℕ → List ℕ × ℕ
      strip_second r = let (v, e) = ecc_data (demodulate r.0) in (v, r.1 + e)
