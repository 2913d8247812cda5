-- ===== src/Sip/Dmr/VoiceBurst/Tests.antt =====
-- The theorem on bursts at a concrete burst.
use wjmmmdvm.Base.{ℕ, ◌≡◌, refl, arith, List, [], ◌∷◌, replicate}
use wjmmmdvm.Sip.Dmr.VoiceBurst.{extract_voice_frames}
use wjmmmdvm.Sip.Dmr.VoiceBurst.Place.{IsFrame}
use wjmmmdvm.Sip.Dmr.VoiceBurst.Burst.{VoiceFrame, fr, burst_bits}
use wjmmmdvm.Sip.Dmr.VoiceBurst.Bytes.{pack_bytes}
use wjmmmdvm.Sip.Dmr.VoiceBurst.Extract.{extract_voice_frames-burst_bits}

abbrev row : List ℕ
row = 1 ∷ 0 ∷ 1 ∷ 1 ∷ replicate 20 0

row-IsFrame : IsFrame row row row row
row-IsFrame = record {
  size₀ = refl;
  unused₁ = refl;
  unused₂ = refl;
  bits₀ = omega arith;
  bits₁ = omega arith;
  bits₂ = omega arith;
  bits₃ = omega arith;
  unused₃ = refl;
}

abbrev frame : VoiceFrame
frame = record { c0 = row; c1 = row; c2 = row; c3 = row; is_frame = row-IsFrame }

extract_voice_frames-burst_bits_example :
    extract_voice_frames (pack_bytes 33 (burst_bits frame frame frame (replicate 48 1)))
    ≡ fr frame ∷ fr frame ∷ fr frame ∷ []
extract_voice_frames-burst_bits_example =
    extract_voice_frames-burst_bits frame frame frame (replicate 48 1) refl (omega arith)
