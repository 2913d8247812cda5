-- ===== src/Ambed/Codec/Contract.antt =====
-- What the rest of the daemon relies on of `Md380Codec` of md380_emu_ambed/src/codec.rs.
use wjmmmdvm.Base.{ℕ, zero, suc, ◌+◌, ◌*◌, ◌≤◌, ◌≡◌, refl, sym, ap, ap₂, ◌∙◌, arith}
use wjmmmdvm.Base.{
  List, [], ◌∷◌, ◌++◌, length, length-append, length-take, length-drop, All, All-append, All-take,
  All-drop, take, drop, take-append-drop, take_all,
}
use wjmmmdvm.Ambed.Protocol.Amb8.{IsAmb8}
use wjmmmdvm.Ambed.Codec.{
  Memory, Firmware, poke, peek, copy_in, copy_out, load_pcm, decode, encode, wav_inbuffer0,
  wav_inbuffer1, ambe_outbuffer0, ambe_outbuffer1,
}
use wjmmmdvm.Ambed.Codec.Ram.{IsHalf, length-copy_out, copy_out-IsHalf, copy_out-copy_in}
use wjmmmdvm.Ambed.Codec.Pack.{pack_frame-IsAmb8}

-- One 20 ms frame of samples.
pub record IsPcm (pcm : List ℕ) : Type 0 where
  pub size : length pcm ≡ 160
  pub halves : All IsHalf pcm

-- A write to another block.
copy_out-poke_ne :
    (base other i n k v : ℕ) (ram : Memory)
    → base + 2 * (i + n) ≤ other + 2 * k
    → copy_out base i n (poke other k v ram) ≡ copy_out base i n ram
unfolding copy_out
copy_out-poke_ne base other i zero k v ram h = refl
copy_out-poke_ne base other i (suc n) k v ram h =
    ap₂ ◌∷◌ (unfold peek in unfold poke in ground arith)
      (copy_out-poke_ne base other (suc i) n k v ram (omega arith))

copy_out-copy_in_ne :
    (base other i k n : ℕ) (vs : List ℕ) (ram : Memory)
    → base + 2 * (i + n) ≤ other + 2 * k
    → copy_out base i n (copy_in other k vs ram) ≡ copy_out base i n ram
unfolding copy_in
copy_out-copy_in_ne base other i k n [] ram h = refl
copy_out-copy_in_ne base other i k n (v ∷ vs) ram h =
    copy_out-copy_in_ne base other i (suc k) n vs (poke other k v ram) (omega arith)
    ∙ copy_out-poke_ne base other i n k v ram (omega arith)

-- For 160 samples of 16 bits and any RAM, what `encode` loads before it calls the firmware leaves
-- the first 80 samples in the first input buffer and the last 80 in the second: the buffers do
-- not overlap.
pub load_pcm_lem :
    (pcm : List ℕ) (ram : Memory)
    → IsPcm pcm
    → copy_out wav_inbuffer0 0 80 (load_pcm pcm ram)
        ++ copy_out wav_inbuffer1 0 80 (load_pcm pcm ram)
      ≡ pcm
unfolding load_pcm
load_pcm_lem pcm ram p =
    ap₂ ◌++◌
      (copy_out-copy_in_ne wav_inbuffer0 wav_inbuffer1 0 0 80 second ram₁ (omega arith)
        ∙ block wav_inbuffer0 first ram (omega (arith, length-take 80 pcm, p.size))
            (All-take IsHalf 80 pcm p.halves))
      (block wav_inbuffer1 second ram₁
          (omega (arith, length-take 80 (drop 80 pcm), length-drop 80 pcm, p.size))
          (All-take IsHalf 80 (drop 80 pcm) (All-drop IsHalf 80 pcm p.halves))
        ∙ take_all 80 (drop 80 pcm) (omega (arith, length-drop 80 pcm, p.size)))
    ∙ take-append-drop 80 pcm
  where
    first : List ℕ
    first = take 80 pcm

    second : List ℕ
    second = take 80 (drop 80 pcm)

    ram₁ : Memory
    ram₁ = copy_in wav_inbuffer0 0 first ram

    block :
        (base : ℕ) (vs : List ℕ) (m : Memory)
        → length vs ≡ 80
        → All IsHalf vs
        → copy_out base 0 80 (copy_in base 0 vs m) ≡ vs
    block base vs m e h =
        ap (λ n. copy_out base 0 n (copy_in base 0 vs m)) (sym e) ∙ copy_out-copy_in base 0 vs m h

pub encode-IsAmb8 : (fw : Firmware) (pcm : List ℕ) (ram : Memory) → IsAmb8 (encode fw pcm ram).0
unfolding encode
encode-IsAmb8 fw pcm ram = pack_frame-IsAmb8 _

pub decode-IsPcm : (fw : Firmware) (frame : List ℕ) (ram : Memory) → IsPcm (decode fw frame ram).0
unfolding decode
decode-IsPcm fw frame ram =
    let ram₃ = (decode fw frame ram).1 in
    record {
      size = omega (
        arith,
        length-append (copy_out ambe_outbuffer0 0 80 ram₃) (copy_out ambe_outbuffer1 0 80 ram₃),
        length-copy_out ambe_outbuffer0 0 80 ram₃,
        length-copy_out ambe_outbuffer1 0 80 ram₃,
      );
      halves =
          All-append IsHalf (copy_out ambe_outbuffer0 0 80 ram₃)
            (copy_out ambe_outbuffer1 0 80 ram₃) (copy_out-IsHalf ambe_outbuffer0 0 80 ram₃)
            (copy_out-IsHalf ambe_outbuffer1 0 80 ram₃);
    }
