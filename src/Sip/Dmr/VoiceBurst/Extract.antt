-- ===== src/Sip/Dmr/VoiceBurst/Extract.antt =====
-- `extract_voice_frames` of mmdvm_sip/src/dmr/voice_burst.rs on a burst as it is transmitted.
use wjmmmdvm.Base.{ℕ, ◌+◌, ◌*◌, ◌-◌, ◌<◌, ◌≡◌, refl, sym, ap, ap₂, ◌∙◌, arith}
use wjmmmdvm.Base.{
  List, [], ◌∷◌, ◌++◌, length, length-append, drop, get_or, All, All-append, append-nil,
}
use wjmmmdvm.Base.{ltb, Bool-cases, inl, inr}
use wjmmmdvm.Base.BitList.{IsBit}
use wjmmmdvm.Base.Index.{get_or-append, get_or-past, drop-past}
use wjmmmdvm.Sip.Fec.Ambe.{AmbeFr}
use wjmmmdvm.Sip.Dmr.VoiceBurst.{payload_bits, dibits_from, deinterleave, extract_voice_frames}
use wjmmmdvm.Sip.Dmr.VoiceBurst.Place.{deinterleave-rows}
use wjmmmdvm.Sip.Dmr.VoiceBurst.Burst.{
  VoiceFrame, fr, high, low, wire_bits, burst_bits, length-wire_bits, wire_bits-IsBit,
  length-dibits_from, dibits_lem,
}
use wjmmmdvm.Sip.Dmr.VoiceBurst.Bytes.{pack_bytes, payload_bits-pack_bytes}

frame_lem :
    (v : VoiceFrame) (dibits : List ℕ)
    → ((j : ℕ) → j < 36 → get_or dibits j 0 ≡ high v (0 + j) * 2 + low v (0 + j))
    → deinterleave dibits ≡ fr v
frame_lem v dibits h =
    deinterleave-rows v.c0 v.c1 v.c2 v.c3 v.is_frame dibits
      λ j b. let e : 0 + j ≡ j = omega arith in h j b ∙ ap (λ k. high v k * 2 + low v k) e

module _ (f1 f2 f3 : VoiceFrame) (sync : List ℕ) (size : length sync ≡ 48)
    (sync_bits : All IsBit sync) where
  bits : List ℕ
  bits = burst_bits f1 f2 f3 sync

  front : List ℕ
  front = wire_bits f2 18 18 ++ wire_bits f3 36 0

  past_first : (n m : ℕ) → n ≡ 72 + m → drop n bits ≡ drop m (wire_bits f2 18 0 ++ (sync ++ front))
  unfolding bits burst_bits front
  past_first n m e = drop-past (wire_bits f1 36 0) _ n m (omega (arith, length-wire_bits f1 36 0))

  past_sync : (n m : ℕ) → n ≡ 156 + m → drop n bits ≡ drop m front
  past_sync n m e =
      past_first n (84 + m) (omega arith)
      ∙ drop-past (wire_bits f2 18 0) (sync ++ front) (84 + m) (48 + m)
          (omega (arith, length-wire_bits f2 18 0))
      ∙ drop-past sync front (48 + m) m (omega arith)

  past_second : drop 192 bits ≡ wire_bits f3 36 0 ++ []
  unfolding front
  past_second =
      past_sync 192 36 refl
      ∙ drop-past (wire_bits f2 18 18) (wire_bits f3 36 0) 36 0
          (omega (arith, length-wire_bits f2 18 18))
      ∙ sym (append-nil (wire_bits f3 36 0))

  second :
      (j : ℕ)
      → j < 36
      → get_or (dibits_from 18 0 72 bits ++ dibits_from 18 0 156 bits) j 0
        ≡ high f2 (0 + j) * 2 + low f2 (0 + j)
  unfolding front
  second j h = elim (Bool-cases (ltb j 18)) [
    | inl before ↦
        get_or-append (dibits_from 18 0 72 bits) _ j 0
          (ground (arith, length-dibits_from 18 0 72 bits))
        ∙ dibits_lem f2 18 0 72 j bits (sync ++ front) (past_first 72 0 refl) (ground arith)
    | inr after ↦
        get_or-past (dibits_from 18 0 72 bits) _ j (j - 18) 0
          (ground (arith, length-dibits_from 18 0 72 bits))
        ∙ dibits_lem f2 18 18 156 (j - 18) bits (wire_bits f3 36 0) (past_sync 156 0 refl)
            (omega arith)
        ∙ same_dibit (18 + (j - 18)) (ground arith)
  ]
    where
      same_dibit :
          (i : ℕ) → i ≡ 0 + j → high f2 i * 2 + low f2 i ≡ high f2 (0 + j) * 2 + low f2 (0 + j)
      same_dibit i e = ap (λ k. high f2 k * 2 + low f2 k) e

  extract-bits :
      (payload : List ℕ)
      → payload_bits payload ≡ bits
      → extract_voice_frames payload ≡ fr f1 ∷ fr f2 ∷ fr f3 ∷ []
  unfolding extract_voice_frames bits burst_bits front
  extract-bits payload e =
      ap voice_frames e
      ∙ ap₂ ◌∷◌
          (frame_lem f1 (dibits_from 36 0 0 bits)
            (λ j h. dibits_lem f1 36 0 0 j bits (wire_bits f2 18 0 ++ (sync ++ front)) refl h))
          (ap₂ ◌∷◌ (frame_lem f2 (dibits_from 18 0 72 bits ++ dibits_from 18 0 156 bits) second) (
            ap (λ r. r ∷ [])
              (frame_lem f3 (dibits_from 36 0 192 bits)
                (λ j h. dibits_lem f3 36 0 192 j bits [] past_second h))))
    where
      voice_frames : List ℕ → List AmbeFr
      voice_frames bs =
          deinterleave (dibits_from 36 0 0 bs)
          ∷ deinterleave (dibits_from 18 0 72 bs ++ dibits_from 18 0 156 bs)
          ∷ deinterleave (dibits_from 36 0 192 bs)
          ∷ []

  bits-IsBit : All IsBit bits
  unfolding bits burst_bits front
  bits-IsBit =
      All-append IsBit (wire_bits f1 36 0) (wire_bits f2 18 0 ++ (sync ++ front))
        (wire_bits-IsBit f1 36 0)
        (All-append IsBit (wire_bits f2 18 0) (sync ++ front) (wire_bits-IsBit f2 18 0) (
          All-append IsBit sync front sync_bits (
            All-append IsBit (wire_bits f2 18 18) (wire_bits f3 36 0) (wire_bits-IsBit f2 18 18)
              (wire_bits-IsBit f3 36 0))))

  length-bits : length bits ≡ 33 * 8
  unfolding bits burst_bits front
  length-bits = omega (
    arith,
    length-append (wire_bits f1 36 0) (wire_bits f2 18 0 ++ (sync ++ front)),
    length-append (wire_bits f2 18 0) (sync ++ front),
    length-append sync front,
    length-append (wire_bits f2 18 18) (wire_bits f3 36 0),
    length-wire_bits f1 36 0,
    length-wire_bits f2 18 0,
    length-wire_bits f2 18 18,
    length-wire_bits f3 36 0,
  )

  -- For three frames with nothing in the cells that no wire bit has and 48 bits of SYNC or EMB,
  -- `extract_voice_frames` on the 33 bytes of the burst, in which the dibits of the frames stand
  -- in the order of the tables and the second frame is split around the 48 bits, returns the
  -- three frames.
  pub extract_voice_frames-burst_bits :
      extract_voice_frames (pack_bytes 33 (burst_bits f1 f2 f3 sync)) ≡ fr f1 ∷ fr f2 ∷ fr f3 ∷ []
  unfolding bits
  extract_voice_frames-burst_bits =
      extract-bits (pack_bytes 33 bits) (payload_bits-pack_bytes 33 bits bits-IsBit length-bits)
