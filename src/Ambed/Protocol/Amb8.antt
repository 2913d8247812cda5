-- ===== src/Ambed/Protocol/Amb8.antt =====
-- The 8-byte frames of md380-emu and the 7-byte Channel data of md380_emu_ambed/src/protocol.rs.
use wjmmmdvm.Base.{ℕ, ◌*◌, ◌/◌, ◌<◌, ◌≡◌, refl, arith, List, [], ◌∷◌}
use wjmmmdvm.Base.{◌++◌, length, take, get_or, All, bit_and}
use wjmmmdvm.Base.Bits.{bit_and-one}
use wjmmmdvm.Base.Result.{ok}
use wjmmmdvm.Ambed.Protocol.{channel, build_channel_from_amb8, amb8_from_channel, div_ceil}
use wjmmmdvm.Ambed.Protocol.{ambe_voice_bits}
use wjmmmdvm.Ambed.Protocol.RoundTrip.{IsWire}
use wjmmmdvm.Ambed.Protocol.Shape.{IsByte}

-- A good frame: 8 bytes, status 0, and nothing but the 49th bit in the last byte.
pub record IsAmb8 (a : List ℕ) : Type 0 where
  pub size : length a ≡ 8
  pub bytes : All IsByte a
  pub status : get_or a 0 0 ≡ 0
  pub last : get_or a 7 0 < 2

-- For each 8-byte frame with status 0 and a last byte below 2, `build_channel_from_amb8` gives a
-- Channel packet of 49 bits that fits its fields, and `amb8_from_channel` gives the frame back.
pub amb8_from_channel-build :
    (a : List ℕ)
    → IsAmb8 a
    → (d : List ℕ) × (build_channel_from_amb8 a ≡ channel ambe_voice_bits d)
      × IsWire (channel ambe_voice_bits d)
      × (amb8_from_channel ambe_voice_bits d ≡ ok a)
unfolding build_channel_from_amb8 amb8_from_channel div_ceil
amb8_from_channel-build (a0 ∷ a1 ∷ a2 ∷ a3 ∷ a4 ∷ a5 ∷ a6 ∷ a7 ∷ []) h =
    (_, refl, omega arith, ground (arith, bit_and-one a7, bit_and-one (bit_and a7 1 * 128 / 128)))
amb8_from_channel-build _ h = absurd (omega arith)

-- For 7 bytes of Channel data, `amb8_from_channel` at 49 bits gives an 8-byte frame with status
-- 0, and `build_channel_from_amb8` gives back the data with the seven padding bits of its last
-- byte cleared.
pub build-amb8_from_channel :
    (d : List ℕ)
    → length d ≡ 7
    → All IsByte d
    → (a : List ℕ) × (amb8_from_channel ambe_voice_bits d ≡ ok a)
      × IsAmb8 a
      × (build_channel_from_amb8 a
          ≡ channel ambe_voice_bits (take 6 d ++ get_or d 6 0 / 128 * 128 ∷ []))
unfolding build_channel_from_amb8 amb8_from_channel
build-amb8_from_channel (d0 ∷ d1 ∷ d2 ∷ d3 ∷ d4 ∷ d5 ∷ d6 ∷ []) e h = (
  _,
  refl,
  ground (arith, bit_and-one (d6 / 128)),
  ground (arith, bit_and-one (d6 / 128), bit_and-one (bit_and (d6 / 128) 1)),
)
build-amb8_from_channel _ e h = absurd (omega arith)
