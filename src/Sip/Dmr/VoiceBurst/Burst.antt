-- ===== src/Sip/Dmr/VoiceBurst/Burst.antt =====
-- A burst as it is transmitted, and `extract_voice_frames` of mmdvm_sip/src/dmr/voice_burst.rs on it.
use wjmmmdvm.Base.{ℕ, zero, suc, ◌+◌, ◌*◌, ◌^◌, ◌%◌, ◌<◌, ◌≡◌, refl, sym, ap, ap₂, ◌∙◌, arith}
use wjmmmdvm.Base.{List, [], ◌∷◌, ◌++◌, length, drop, get_or, bit_or, All}
use wjmmmdvm.Base.Bits.{bit_or_shifted}
use wjmmmdvm.Base.BitList.{IsBit}
use wjmmmdvm.Base.Index.{get_or-drop, get_or-append, get_or-past}
use wjmmmdvm.Sip.Fec.Ambe.{AmbeFr}
use wjmmmdvm.Sip.Dmr.VoiceBurst.{dibits_from}
use wjmmmdvm.Sip.Dmr.VoiceBurst.Place.{
  IsFrame, rows, high_bit, low_bit, high_bit-IsBit, low_bit-IsBit,
}

-- A frame in the layout of the decoder, with its rows apart.
pub record VoiceFrame : Type 0 where
  pub c0 : List ℕ
  pub c1 : List ℕ
  pub c2 : List ℕ
  pub c3 : List ℕ
  pub is_frame : IsFrame c0 c1 c2 c3

abbrev pub fr : VoiceFrame → AmbeFr
fr v = rows v.c0 v.c1 v.c2 v.c3

abbrev pub high : VoiceFrame → ℕ → ℕ
high v i = high_bit v.c0 v.c1 v.c2 v.c3 i

abbrev pub low : VoiceFrame → ℕ → ℕ
low v i = low_bit v.c0 v.c1 v.c2 v.c3 i

-- The bits of `n` dibits on the wire, from dibit `i`.
unfoldable pub wire_bits : VoiceFrame → ℕ → ℕ → List ℕ
unfolding high_bit low_bit
wire_bits v zero i = []
wire_bits v (suc n) i = high v i ∷ low v i ∷ wire_bits v n (suc i)

-- The 264 bits of a burst: the second frame has the 48 bits of SYNC or EMB in its middle.
unfoldable pub burst_bits : VoiceFrame → VoiceFrame → VoiceFrame → List ℕ → List ℕ
burst_bits f1 f2 f3 sync =
    wire_bits f1 36 0 ++ (wire_bits f2 18 0 ++ (sync ++ (wire_bits f2 18 18 ++ wire_bits f3 36 0)))

pub length-wire_bits : (v : VoiceFrame) (n i : ℕ) → length (wire_bits v n i) ≡ n * 2
unfolding wire_bits
length-wire_bits v zero i = refl
length-wire_bits v (suc n) i = omega (arith, length-wire_bits v n (suc i))

pub wire_bits-IsBit : (v : VoiceFrame) (n i : ℕ) → All IsBit (wire_bits v n i)
unfolding wire_bits
wire_bits-IsBit v zero i = tt
wire_bits-IsBit v (suc n) i = (
  high_bit-IsBit v.c0 v.c1 v.c2 v.c3 v.is_frame i,
  (low_bit-IsBit v.c0 v.c1 v.c2 v.c3 v.is_frame i, wire_bits-IsBit v n (suc i)),
)

get_or-wire_bits :
    (v : VoiceFrame) (n i j : ℕ)
    → j < n
    → (get_or (wire_bits v n i) (2 * j) 0 ≡ high v (i + j))
      × (get_or (wire_bits v n i) (2 * j + 1) 0 ≡ low v (i + j))
unfolding wire_bits
get_or-wire_bits v zero i j h = absurd (omega arith)
get_or-wire_bits v (suc n) i zero h =
    let e : i ≡ i + 0 = omega arith in (ap (high v) e, ap (low v) e)
get_or-wire_bits v (suc n) i (suc j) h =
    let e : suc i + j ≡ i + suc j = omega arith in
    let rest = get_or-wire_bits v n (suc i) j (omega arith) in
    (
      get_or-past (high v i ∷ low v i ∷ []) (wire_bits v n (suc i)) _ _ 0 (omega arith)
          ∙ rest.0
          ∙ ap (high v) e,
      get_or-past (high v i ∷ low v i ∷ []) (wire_bits v n (suc i)) _ _ 0 (omega arith)
          ∙ rest.1
          ∙ ap (low v) e,
    )

get_or-dibits_from :
    (n i off j : ℕ) (bits : List ℕ)
    → j < n
    → get_or (dibits_from n i off bits) j 0
      ≡ bit_or
          (get_or bits (off + 2 * (i + j)) 0 * 2 % 2 ^ 8)
          (get_or bits (off + 2 * (i + j) + 1) 0)
unfolding dibits_from
get_or-dibits_from zero i off j bits h = absurd (omega arith)
get_or-dibits_from (suc n) i off zero bits h =
    let e : i ≡ i + 0 = omega arith in
    ap (λ k. bit_or (get_or bits (off + 2 * k) 0 * 2 % 2 ^ 8) (get_or bits (off + 2 * k + 1) 0)) e
get_or-dibits_from (suc n) i off (suc j) bits h =
    let e : suc i + j ≡ i + suc j = omega arith in
    get_or-dibits_from n (suc i) off j bits (omega arith)
    ∙ ap (λ k. bit_or (get_or bits (off + 2 * k) 0 * 2 % 2 ^ 8) (get_or bits (off + 2 * k + 1) 0)) e

pub length-dibits_from : (n i off : ℕ) (bits : List ℕ) → length (dibits_from n i off bits) ≡ n
unfolding dibits_from
length-dibits_from zero i off bits = refl
length-dibits_from (suc n) i off bits = ap suc (length-dibits_from n (suc i) off bits)

two_bits : (x y : ℕ) → IsBit x → IsBit y → bit_or (x * 2 % 2 ^ 8) y ≡ x * 2 + y
two_bits x y hx hy =
    let e : x * 2 % 2 ^ 8 ≡ x * 2 ^ 1 = omega arith in
    ap (λ t. bit_or t y) e ∙ bit_or_shifted x 1 hy ∙ omega arith

-- The dibits of a run of wire bits that stands at `off`.
pub dibits_lem :
    (v : VoiceFrame) (n k off j : ℕ) (bits post : List ℕ)
    → drop off bits ≡ wire_bits v n k ++ post
    → j < n
    → get_or (dibits_from n 0 off bits) j 0 ≡ high v (k + j) * 2 + low v (k + j)
dibits_lem v n k off j bits post e h =
    get_or-dibits_from n 0 off j bits h
    ∙ ap₂ (λ x y. bit_or (x * 2 % 2 ^ 8) y)
        (at (2 * j) (omega arith) (omega arith) ∙ (get_or-wire_bits v n k j h).0)
        (at (2 * j + 1) (omega arith) (omega arith) ∙ (get_or-wire_bits v n k j h).1)
    ∙ two_bits (high v (k + j)) (low v (k + j))
        (high_bit-IsBit v.c0 v.c1 v.c2 v.c3 v.is_frame (k + j))
        (low_bit-IsBit v.c0 v.c1 v.c2 v.c3 v.is_frame (k + j))
  where
    at : (m : ℕ) {p : ℕ} → p ≡ off + m → m < n * 2 → get_or bits p 0 ≡ get_or (wire_bits v n k) m 0
    at m c b =
        ap (λ q. get_or bits q 0) c
        ∙ sym (get_or-drop off m bits 0)
        ∙ ap (λ bs. get_or bs m 0) e
        ∙ get_or-append (wire_bits v n k) post m 0 (omega (arith, length-wire_bits v n k))
