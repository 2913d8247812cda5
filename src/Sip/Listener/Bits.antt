-- ===== src/Sip/Listener/Bits.antt =====
-- The voice bits of mmdvm_sip/src/dmr_listener.rs on their way into the firmware's bit buffer.
use wjmmmdvm.Base.{
  ℕ, ◌*◌, ◌/◌, ◌%◌, ◌^◌, ◌≡◌, refl, sym, ap, ap₂, ◌∙◌, arith, List, [], ◌∷◌, ◌++◌, length, take,
  drop, get_or, take_all, All, bit_and, bit_or,
}
use wjmmmdvm.Base.Bits.{bit_and-one, bit_or_shifted}
use wjmmmdvm.Base.BitList.{IsBit}
use wjmmmdvm.Base.Bytes.{byte_bits, or_bits, byte_bits-or_bits}
use wjmmmdvm.Base.Index.{elements, elements_lem, length-elements, All-elements, All-get_or_any}
use wjmmmdvm.Ambed.Codec.Bits.{frame_bits, bytes_bits}
use wjmmmdvm.Ambed.Server.Session.{amb8_of}
use wjmmmdvm.Sip.Listener.{pack_voice_bits, pack_loop}

pack_form :
    (bits : List ℕ)
    → pack_voice_bits bits
      ≡ or_bits 0 (elements 8 0 bits) 0
        ∷ or_bits 0 (elements 8 8 bits) 0
        ∷ or_bits 0 (elements 8 16 bits) 0
        ∷ or_bits 0 (elements 8 24 bits) 0
        ∷ or_bits 0 (elements 8 32 bits) 0
        ∷ or_bits 0 (elements 8 40 bits) 0
        ∷ bit_or 0 (bit_and (get_or bits 48 0) 1 * 2 ^ 7)
        ∷ []
unfolding pack_voice_bits pack_loop or_bits elements
pack_form bits = refl

pub frame_size : (bits : List ℕ) → length (take 6 (drop 1 (amb8_of (pack_voice_bits bits)))) ≡ 6
frame_size bits = ap (λ b. length (take 6 (drop 1 (amb8_of b)))) (pack_form bits)

last_byte : (x : ℕ) → IsBit x → bit_or 0 (bit_and x 1 * 2 ^ 7) / 2 ^ 7 % 2 ≡ x
last_byte x h = omega (
  arith,
  bit_or_shifted 0 8 {field = bit_and x 1 * 2 ^ 7} (omega (arith, bit_and-one x)),
  bit_and-one x,
)

module _ (bits : List ℕ) (are_bits : All IsBit bits) (size : length bits ≡ 49) where
  get_or-IsBit : (i : ℕ) → IsBit (get_or bits i 0)
  get_or-IsBit i = All-get_or_any IsBit bits i 0 are_bits (omega arith)

  byte_lem : (i : ℕ) → byte_bits 8 0 (or_bits 0 (elements 8 i bits) 0) ≡ elements 8 i bits
  byte_lem i = byte_bits-or_bits (elements 8 i bits) (elements-IsBit 8 i) (length-elements 8 i bits)
    where
      elements-IsBit : (n j : ℕ) → All IsBit (elements n j bits)
      elements-IsBit n j = All-elements IsBit n j bits get_or-IsBit

  -- For 49 voice bits, the bits that the codec unpacks from the frame of the daemon for the 7
  -- bytes of `pack_voice_bits` are these 49 bits in their order.
  pub frame_bits-pack_voice_bits : frame_bits (amb8_of (pack_voice_bits bits)) ≡ bits
  unfolding frame_bits bytes_bits elements
  frame_bits-pack_voice_bits =
      ap (λ b. frame_bits (amb8_of b)) (pack_form bits)
      ∙ ap₂ ◌++◌
          (ap₂ ◌++◌ (byte_lem 0) (
            ap₂ ◌++◌ (byte_lem 8) (
              ap₂ ◌++◌ (byte_lem 16) (
                ap₂ ◌++◌ (byte_lem 24)
                  (ap₂ ◌++◌ (byte_lem 32) (ap (λ t. t ++ []) (byte_lem 40)))))))
          (ap (λ b. b ∷ []) last_lem)
      ∙ elements_lem 49 0 bits (omega arith)
      ∙ take_all 49 bits (sym size)
    where
      last_lem :
          bit_and (bit_or 0 (bit_and (get_or bits 48 0) 1 * 2 ^ 7) / 2 ^ 7 % 2) 1 ≡ get_or bits 48 0
      last_lem = omega (
        arith,
        bit_and-one (bit_or 0 (bit_and (get_or bits 48 0) 1 * 2 ^ 7) / 2 ^ 7 % 2),
        last_byte (get_or bits 48 0) (get_or-IsBit 48),
        get_or-IsBit 48,
      )
