-- ===== src/Sip/Fec/Ambe/Tests.antt =====
-- The theorems on voice frames at a concrete frame.
use wjmmmdvm.Base.{ℕ, ◌≡◌, refl, arith, List, [], ◌∷◌, ◌+◌, bit_xor, replicate}
use wjmmmdvm.Base.BitList.{number, digits_of}
use wjmmmdvm.Sip.Fec.Golay.Table.{codeword, flips, data_flips}
use wjmmmdvm.Sip.Fec.Golay.Decode.{Received}
use wjmmmdvm.Sip.Fec.Ambe.{demodulate, strip_fec}
use wjmmmdvm.Sip.Fec.Ambe.Scramble.{demodulate_twice}
use wjmmmdvm.Sip.Fec.Ambe.Strip.{transmitted, voice, strip_fec_recovers}

abbrev places : List ℕ
places = 20 ∷ 11 ∷ 0 ∷ []

abbrev word : List ℕ
word = digits_of 23 (bit_xor (codeword 0x5a3) (flips places))

word-Received : Received word 0x5a3 places
unfolding number digits_of codeword flips
word-Received = record {
  size = refl;
  are_bits = omega arith;
  word = refl;
  d_small = omega arith;
  positions = omega arith;
  few = omega arith;
}

abbrev uncoded : List ℕ
uncoded = 1 ∷ 0 ∷ 1 ∷ replicate 21 0

strip_fec_recovers_example :
    strip_fec (
      transmitted 0 word 0x5a3 places word-Received 0 word 0x5a3 places word-Received uncoded
        uncoded)
    ≡ (
      voice 0 word 0x5a3 places word-Received 0 word 0x5a3 places word-Received uncoded uncoded,
      data_flips places + data_flips places,
    )
strip_fec_recovers_example =
    strip_fec_recovers 0 word 0x5a3 places word-Received 0 word 0x5a3 places word-Received uncoded
      uncoded (omega arith) (omega arith)

scrambled_twice :
    demodulate (demodulate (uncoded ∷ uncoded ∷ uncoded ∷ uncoded ∷ []))
    ≡ uncoded ∷ uncoded ∷ uncoded ∷ uncoded ∷ []
scrambled_twice = demodulate_twice uncoded uncoded uncoded uncoded refl
