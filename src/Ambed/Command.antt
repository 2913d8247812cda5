-- ===== src/Ambed/Command.antt =====
-- md380_emu_ambed/src/command: the offline commands `encode` and `decode` between the bytes of their
-- files, and what `serve` makes of its arguments. The firmware is loaded and the files are read and
-- written around what is modelled here.
pub mod WarmUp
mod Tests
use wjmmmdvm.Base.{
  ℕ, zero, suc, ◌+◌, ◌*◌, ◌/◌, ◌%◌, Bool, ◌||◌, if◌then◌else◌, ltb, List, [], ◌∷◌, ◌++◌, length,
  take, drop, Option, none, some,
}
use wjmmmdvm.Base.Text.{Text, codes, trim, text_eq, eq_ignore_ascii_case}
use wjmmmdvm.Ambed.Codec.{Memory, Firmware, encode, decode}

abbrev pub ambe_frame_bytes : ℕ
ambe_frame_bytes = 8

abbrev pub frame_pcm_samples : ℕ
frame_pcm_samples = 160

-- `chunks_exact(2)` as little-endian `i16`s, each as its 16 bits; an odd last byte is dropped.
unfoldable pub samples_of_le : List ℕ → List ℕ
samples_of_le [] = []
samples_of_le (a ∷ []) = []
samples_of_le (a ∷ b ∷ raw) = (a + b * 256) ∷ samples_of_le raw

-- `to_le_bytes` of each sample.
unfoldable pub le_of_samples : List ℕ → List ℕ
le_of_samples [] = []
le_of_samples (s ∷ samples) = s % 256 ∷ s / 256 ∷ le_of_samples samples

module _ (fw : Firmware) where
  -- The loop of `decode` over `chunks_exact`, as many rounds as there are whole frames.
  unfoldable pub decode_loop : ℕ → List ℕ → Memory → List ℕ
  unfolding le_of_samples
  decode_loop zero raw ram = []
  decode_loop (suc n) raw ram =
      let (pcm, ram') = decode fw (take ambe_frame_bytes raw) ram in
      le_of_samples pcm ++ decode_loop n (drop ambe_frame_bytes raw) ram'

  unfoldable pub run_decode : List ℕ → Memory → List ℕ
  unfolding decode_loop
  run_decode raw ram = decode_loop (length raw / ambe_frame_bytes) raw ram

  -- The loop of `encode`, with the count of the frames that were skipped.
  unfoldable pub encode_loop : ℕ → ℕ → ℕ → List ℕ → Memory → List ℕ
  encode_loop zero skip_warmup skipped samples ram = []
  encode_loop (suc n) skip_warmup skipped samples ram =
      let (ambe, ram') = encode fw (take frame_pcm_samples samples) ram in
      let rest = drop frame_pcm_samples samples in
      let skipping = encode_loop n skip_warmup (skipped + 1) rest ram' in
      let writing = ambe ++ encode_loop n skip_warmup skipped rest ram' in
      if ltb skipped skip_warmup then skipping else writing

  unfoldable pub run_encode : ℕ → List ℕ → Memory → List ℕ
  unfolding samples_of_le encode_loop
  run_encode skip_warmup raw ram =
      let samples = samples_of_le raw in
      encode_loop (length samples / frame_pcm_samples) skip_warmup 0 samples ram

-- `serve`: an address or a path, or nothing.
unfoldable pub parse_optional : Text → Option Text
parse_optional s =
    let trimmed = trim s in
    if text_eq trimmed [] || eq_ignore_ascii_case trimmed (codes "none") then none else some trimmed
