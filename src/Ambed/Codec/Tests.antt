-- ===== src/Ambed/Codec/Tests.antt =====
-- The codec theorems with the firmware of the sample.
use wjmmmdvm.Base.{ℕ, ◌≡◌, refl, arith, List, ◌∷◌, ◌++◌, map, replicate}
use wjmmmdvm.Ambed.Codec.{
  copy_out, load_pcm, unpack_frame, encode, ambe_inbuffer, ambe_outbuffer, wav_inbuffer0,
  wav_inbuffer1,
}
use wjmmmdvm.Ambed.Codec.Sample.{firmware, zeros}
use wjmmmdvm.Ambed.Codec.Pack.{low_bit, unpack_frame-encode}
use wjmmmdvm.Ambed.Codec.Contract.{IsPcm, load_pcm_lem}

abbrev ramp : List ℕ
ramp = 7 ∷ 0xffff ∷ replicate 158 5

ramp-IsPcm : IsPcm ramp
ramp-IsPcm = record { size = refl; halves = omega arith }

unpack_frame-encode_example :
    copy_out ambe_inbuffer 0 49 (unpack_frame (encode firmware ramp zeros).0 zeros)
    ≡ map low_bit (copy_out ambe_outbuffer 0 49 (encode firmware ramp zeros).1)
unpack_frame-encode_example = unpack_frame-encode firmware ramp zeros zeros

load_pcm_back :
    copy_out wav_inbuffer0 0 80 (load_pcm ramp zeros)
      ++ copy_out wav_inbuffer1 0 80 (load_pcm ramp zeros)
    ≡ ramp
load_pcm_back = load_pcm_lem ramp zeros ramp-IsPcm
