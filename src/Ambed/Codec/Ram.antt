-- ===== src/Ambed/Codec/Ram.antt =====
-- Blocks of halfwords in the RAM of md380_emu_ambed/src/codec.rs.
use wjmmmdvm.Base.{ℕ, zero, suc, ◌+◌, ◌^◌, ◌<◌, ◌≡◌, refl, ap, ap₂, ◌∙◌, arith}
use wjmmmdvm.Base.{List, [], ◌∷◌, ◌++◌, length, All}
use wjmmmdvm.Ambed.Codec.{Memory, poke, peek, copy_in, copy_out}

abbrev pub IsHalf : ℕ → Type 0
IsHalf v = v < 2 ^ 16

pub length-copy_out : (base i n : ℕ) (ram : Memory) → length (copy_out base i n ram) ≡ n
unfolding copy_out
length-copy_out base i zero ram = refl
length-copy_out base i (suc n) ram = ap suc (length-copy_out base (suc i) n ram)

pub copy_out-IsHalf : (base i n : ℕ) (ram : Memory) → All IsHalf (copy_out base i n ram)
unfolding copy_out peek
copy_out-IsHalf base i zero ram = tt
copy_out-IsHalf base i (suc n) ram = (omega arith, copy_out-IsHalf base (suc i) n ram)

-- A write behind the block is not seen in front of it.
copy_in_below :
    (base i : ℕ) (vs : List ℕ) (ram : Memory) (k : ℕ)
    → k < i
    → peek base k (copy_in base i vs ram) ≡ peek base k ram
unfolding copy_in peek poke
copy_in_below base i [] ram k h = refl
copy_in_below base i (v ∷ vs) ram k h =
    copy_in_below base (suc i) vs (poke base i v ram) k (omega arith) ∙ ground arith

-- What is copied in is read back.
pub copy_out-copy_in :
    (base i : ℕ) (vs : List ℕ) (ram : Memory)
    → All IsHalf vs
    → copy_out base i (length vs) (copy_in base i vs ram) ≡ vs
unfolding copy_out copy_in
copy_out-copy_in base i [] ram h = refl
copy_out-copy_in base i (v ∷ vs) ram h =
    ap₂ ◌∷◌
      (copy_in_below base (suc i) vs (poke base i v ram) i (omega arith)
        ∙ (unfold peek in unfold poke in ground arith))
      (copy_out-copy_in base (suc i) vs (poke base i v ram) h.1)

pub copy_in-append :
    (base i : ℕ) (vs ws : List ℕ) (ram : Memory)
    → copy_in base i (vs ++ ws) ram ≡ copy_in base (i + length vs) ws (copy_in base i vs ram)
unfolding copy_in
copy_in-append base i [] ws ram =
    let e : i ≡ i + 0 = omega arith in ap (λ k. copy_in base k ws ram) e
copy_in-append base i (v ∷ vs) ws ram =
    let e : suc i + length vs ≡ i + length (v ∷ vs) = omega arith in
    copy_in-append base (suc i) vs ws (poke base i v ram)
    ∙ ap (λ k. copy_in base k ws (copy_in base (suc i) vs (poke base i v ram))) e
