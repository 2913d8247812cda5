-- ===== src/Sip/Dmr/VoiceBurst/Place.antt =====
-- `deinterleave` of mmdvm_sip/src/dmr/voice_burst.rs: each wire bit has a cell of its own.
use wjmmmdvm.Base.{ℕ, zero, suc, ◌+◌, ◌/◌, ◌<◌, ◌≡◌, refl, sym, ap, ap₂, ◌∙◌, arith}
use wjmmmdvm.Base.{List, [], ◌∷◌, ◌++◌, length, drop, get_or, replicate, bit_and, ◌*◌}
use wjmmmdvm.Base.Bits.{bit_and-one}
use wjmmmdvm.Base.{take-append-drop, take_all, length-drop, All}
use wjmmmdvm.Base.Index.{All-get_or_any, elements, elements_lem}
use wjmmmdvm.Base.BitList.{IsBit}
use wjmmmdvm.Sip.Fec.Ambe.{AmbeFr, frame_row}
use wjmmmdvm.Sip.Dmr.VoiceBurst.{rw_table, rx_table, ry_table, rz_table, set_cell, zero_frame}
use wjmmmdvm.Sip.Dmr.VoiceBurst.{deinterleave_loop, deinterleave}

-- The loop with the two bits of round `i` given as functions of `i`.
unfoldable place : ℕ → ℕ → (ℕ → ℕ) → (ℕ → ℕ) → AmbeFr → AmbeFr
place zero i hi lo fr = fr
place (suc n) i hi lo fr =
    let fr' = set_cell fr (get_or rw_table i 0) (get_or rx_table i 0) (hi i) in
    place n (suc i) hi lo (set_cell fr' (get_or ry_table i 0) (get_or rz_table i 0) (lo i))

deinterleave-place :
    (n i : ℕ) (dibits : List ℕ) (fr : AmbeFr)
    → deinterleave_loop n i dibits fr
      ≡ place n i (λ j. bit_and (get_or dibits j 0 / 2) 1) (λ j. bit_and (get_or dibits j 0) 1) fr
unfolding deinterleave_loop place
deinterleave-place zero i dibits fr = refl
deinterleave-place (suc n) i dibits fr = deinterleave-place n (suc i) dibits _

place_ext :
    (n i : ℕ) (hi hi' lo lo' : ℕ → ℕ) (fr : AmbeFr)
    → ((j : ℕ) → j < i + n → (hi j ≡ hi' j) × (lo j ≡ lo' j))
    → place n i hi lo fr ≡ place n i hi' lo' fr
unfolding place
place_ext zero i hi hi' lo lo' fr h = refl
place_ext (suc n) i hi hi' lo lo' fr h =
    let here = h i (omega arith) in
    ap₂
      (λ x y. place n (suc i) hi lo (
        set_cell (set_cell fr (get_or rw_table i 0) (get_or rx_table i 0) x) (get_or ry_table i 0)
          (get_or rz_table i 0) y))
      here.0 here.1
    ∙ place_ext n (suc i) hi hi' lo lo' _ (λ j b. h j (omega arith))

-- The four rows of a frame, with nothing in the cells that no wire bit has.
pub record IsFrame (c0 c1 c2 c3 : List ℕ) : Type 0 where
  pub size₀ : length c0 ≡ 24
  pub unused₁ : drop 23 c1 ≡ replicate 1 0
  pub unused₂ : drop 11 c2 ≡ replicate 13 0
  pub bits₀ : All IsBit c0
  pub bits₁ : All IsBit c1
  pub bits₂ : All IsBit c2
  pub bits₃ : All IsBit c3
  pub unused₃ : drop 14 c3 ≡ replicate 10 0

whole_row :
    (n m : ℕ) (row : List ℕ)
    → drop n row ≡ replicate (suc m) 0
    → elements n 0 row ++ replicate (suc m) 0 ≡ row
whole_row n m row e =
    ap₂ ◌++◌ (elements_lem n 0 row (omega (arith, length-drop n row, ap length e))) (sym e)
    ∙ take-append-drop n row

module _ (c0 c1 c2 c3 : List ℕ) where
  abbrev pub rows : AmbeFr
  rows = c0 ∷ c1 ∷ c2 ∷ c3 ∷ []

  -- The bits of dibit `i` on the wire.
  unfoldable pub high_bit : ℕ → ℕ
  high_bit i = get_or (frame_row rows (get_or rw_table i 0)) (get_or rx_table i 0) 0

  unfoldable pub low_bit : ℕ → ℕ
  low_bit i = get_or (frame_row rows (get_or ry_table i 0)) (get_or rz_table i 0) 0

  place_all :
      place 36 0 high_bit low_bit zero_frame
      ≡ elements 24 0 c0
        ∷ (elements 23 0 c1 ++ replicate 1 0)
        ∷ (elements 11 0 c2 ++ replicate 13 0)
        ∷ (elements 14 0 c3 ++ replicate 10 0)
        ∷ []
  unfolding place high_bit low_bit elements
  place_all = refl

  module _ (f : IsFrame c0 c1 c2 c3) where
    row-IsBit : (r c : ℕ) → IsBit (get_or (frame_row rows r) c 0)
    row-IsBit r c =
        All-get_or_any IsBit (frame_row rows r) c 0
          (All-get_or_any (All IsBit) rows r [] (f.bits₀, (f.bits₁, (f.bits₂, (f.bits₃, tt)))) tt)
          (omega arith)

    pub high_bit-IsBit : (i : ℕ) → IsBit (high_bit i)
    unfolding high_bit
    high_bit-IsBit i = row-IsBit (get_or rw_table i 0) (get_or rx_table i 0)

    pub low_bit-IsBit : (i : ℕ) → IsBit (low_bit i)
    unfolding low_bit
    low_bit-IsBit i = row-IsBit (get_or ry_table i 0) (get_or rz_table i 0)

    place-rows : place 36 0 high_bit low_bit zero_frame ≡ rows
    place-rows =
        place_all
        ∙ ap₂ ◌∷◌ (elements_lem 24 0 c0 (omega (arith, f.size₀)) ∙ take_all 24 c0 (sym f.size₀)) (
            ap₂ ◌∷◌ (whole_row 23 0 c1 f.unused₁) (
              ap₂ ◌∷◌ (whole_row 11 12 c2 f.unused₂)
                (ap (λ r. r ∷ []) (whole_row 14 9 c3 f.unused₃))))

    pub deinterleave-rows :
        (dibits : List ℕ)
        → ((j : ℕ) → j < 36 → get_or dibits j 0 ≡ high_bit j * 2 + low_bit j)
        → deinterleave dibits ≡ rows
    unfolding deinterleave
    deinterleave-rows dibits h =
        deinterleave-place 36 0 dibits zero_frame
        ∙ place_ext 36 0 _ high_bit _ low_bit zero_frame (λ j b. (
          bit_and-one (get_or dibits j 0 / 2)
              ∙ omega (arith, h j b, high_bit-IsBit j, low_bit-IsBit j),
          bit_and-one (get_or dibits j 0) ∙ omega (arith, h j b, low_bit-IsBit j),
        ))
        ∙ place-rows
