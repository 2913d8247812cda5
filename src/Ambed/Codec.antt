-- ===== src/Ambed/Codec.antt =====
-- md380_emu_ambed/src/codec.rs, as it is built for ARM: the calls of the firmware's codec, whose
-- code and data the repository does not hold. The RAM is a function from addresses to halfwords,
-- and the two firmware functions are parameters that change it in any way.
pub mod Ram
pub mod Bits
pub mod Pack
pub mod Contract
pub mod Sample
mod Tests
use wjmmmdvm.Base.{ℕ, zero, suc, ◌+◌, ◌-◌, ◌*◌, ◌/◌, ◌%◌, ◌^◌, bit_and, bit_or, if◌then◌else◌, ◌==◌}
use wjmmmdvm.Base.{List, [], ◌∷◌, ◌++◌, get_or, take, drop}

abbrev pub Memory : Type 0
Memory = ℕ → ℕ

pub record Firmware : Type 0 where
  -- `wavbuffer eighty bitbuffer a4 a5 a6 a7`
  pub ambe_decode_wav : ℕ → ℕ → ℕ → ℕ → ℕ → ℕ → ℕ → Memory → Memory
  -- `bitbuffer a2 wavbuffer eighty a5 timeslot a7 context`
  pub ambe_encode_thing : ℕ → ℕ → ℕ → ℕ → ℕ → ℕ → ℕ → ℕ → Memory → Memory

abbrev pub ambe_inbuffer : ℕ
ambe_inbuffer = 0x2001_1c8e

abbrev pub ambe_outbuffer0 : ℕ
ambe_outbuffer0 = 0x2001_1aa8

abbrev pub ambe_outbuffer1 : ℕ
ambe_outbuffer1 = 0x2001_1b48

abbrev pub ambe_mystery : ℕ
ambe_mystery = 0x2001_1224

abbrev pub wav_inbuffer0 : ℕ
wav_inbuffer0 = 0x2000_de82

abbrev pub wav_inbuffer1 : ℕ
wav_inbuffer1 = 0x2000_df22

abbrev pub ambe_outbuffer : ℕ
ambe_outbuffer = 0x2000_dfc6

abbrev pub ambe_en_mystery : ℕ
ambe_en_mystery = 0x2000_c730

abbrev pub half_frame_pcm_samples : ℕ
half_frame_pcm_samples = 80

-- `*(base as *mut i16).add(i) = v`
unfoldable pub poke : ℕ → ℕ → ℕ → Memory → Memory
poke base i v ram x = if x == base + 2 * i then v else ram x

-- `*(base as *const i16).add(i)`: a halfword has 16 bits.
unfoldable pub peek : ℕ → ℕ → Memory → ℕ
peek base i ram = ram (base + 2 * i) % 2 ^ 16

-- `copy_nonoverlapping` into the RAM from `base + i`, and out of it.
unfoldable pub copy_in : ℕ → ℕ → List ℕ → Memory → Memory
copy_in base i [] ram = ram
copy_in base i (v ∷ vs) ram = copy_in base (suc i) vs (poke base i v ram)

unfoldable pub copy_out : ℕ → ℕ → ℕ → Memory → List ℕ
copy_out base i zero ram = []
copy_out base i (suc n) ram = peek base i ram ∷ copy_out base (suc i) n ram

-- The inner loop of `decode`: `n` bits of the byte from bit `j`, to slot `idx` on.
unfoldable pub unpack_byte : ℕ → ℕ → ℕ → ℕ → Memory → Memory
unpack_byte zero j idx byte ram = ram
unpack_byte (suc n) j idx byte ram =
    unpack_byte n (suc j) (suc idx) byte
      (poke ambe_inbuffer idx (bit_and (byte / 2 ^ (7 - j)) 1) ram)

-- The outer loop, over bytes 1 to 6.
unfoldable pub unpack_bytes : List ℕ → ℕ → Memory → Memory
unpack_bytes [] idx ram = ram
unpack_bytes (byte ∷ bytes) idx ram = unpack_bytes bytes (idx + 8) (unpack_byte 8 0 idx byte ram)

unfoldable pub unpack_frame : List ℕ → Memory → Memory
unpack_frame ambe_frame ram =
    poke ambe_inbuffer 48 (bit_and (get_or ambe_frame 7 0) 1)
      (unpack_bytes (take 6 (drop 1 ambe_frame)) 0 ram)

-- The inner loop of `encode`'s packing: `n` bits from slot `i * 8 + j`.
unfoldable pub pack_byte : ℕ → ℕ → ℕ → Memory → ℕ → ℕ
pack_byte zero j i ram byte = byte
pack_byte (suc n) j i ram byte =
    let bit = bit_and (peek ambe_outbuffer (i * 8 + j) ram) 1 % 2 ^ 8 in
    pack_byte n (suc j) i ram (bit_or byte (bit * 2 ^ (7 - j)))

unfoldable pub pack_rows : ℕ → ℕ → Memory → List ℕ
pack_rows zero i ram = []
pack_rows (suc n) i ram = pack_byte 8 0 i ram 0 ∷ pack_rows n (suc i) ram

unfoldable pub pack_frame : Memory → List ℕ
pack_frame ram = 0 ∷ (pack_rows 6 0 ram ++ bit_and (peek ambe_outbuffer 48 ram) 1 % 2 ^ 8 ∷ [])

-- The first step of `encode`: the two halves of the samples.
unfoldable pub load_pcm : List ℕ → Memory → Memory
load_pcm pcm ram =
    let ram₁ = copy_in wav_inbuffer0 0 (take half_frame_pcm_samples pcm) ram in
    copy_in wav_inbuffer1 0 (take half_frame_pcm_samples (drop half_frame_pcm_samples pcm)) ram₁

module _ (fw : Firmware) where
  open fw use {ambe_decode_wav, ambe_encode_thing}

  unfoldable pub decode : List ℕ → Memory → List ℕ × Memory
  decode ambe_frame ram =
      let ram₁ = unpack_frame ambe_frame ram in
      let ram₂ =
        ambe_decode_wav ambe_outbuffer0 half_frame_pcm_samples ambe_inbuffer 0 0 0 ambe_mystery
          ram₁ in
      let ram₃ =
        ambe_decode_wav ambe_outbuffer1 half_frame_pcm_samples ambe_inbuffer 0 0 1 ambe_mystery
          ram₂ in
      (
        copy_out ambe_outbuffer0 0 half_frame_pcm_samples ram₃
            ++ copy_out ambe_outbuffer1 0 half_frame_pcm_samples ram₃,
        ram₃,
      )

  unfoldable pub encode : List ℕ → Memory → List ℕ × Memory
  encode pcm ram =
      let ram₂ = load_pcm pcm ram in
      let ram₃ =
        ambe_encode_thing ambe_outbuffer 0 wav_inbuffer0 0x50 0x1840 0 0x2000 ambe_en_mystery
          ram₂ in
      let ram₄ =
        ambe_encode_thing ambe_outbuffer 0 wav_inbuffer1 0x50 0x1840 1 0x2000 ambe_en_mystery
          ram₃ in
      (pack_frame ram₄, ram₄)
