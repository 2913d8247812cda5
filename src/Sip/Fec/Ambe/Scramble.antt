-- ===== src/Sip/Fec/Ambe/Scramble.antt =====
-- The descrambler of mmdvm_sip/src/fec/ambe.rs, position by position.
use wjmmmdvm.Base.{ℕ, zero, suc, ◌-◌, ◌%◌, ◌^◌, ◌≤◌, ◌≡◌, refl, ap, ◌∙◌, arith, bit_xor, ◌==◌}
use wjmmmdvm.Base.{
  List, [], ◌∷◌, get_or, set, length, length-set, ltb, if◌then◌else◌, Bool-cases, inl, inr,
}
use wjmmmdvm.Base.Index.{get_or-set, get_or_ext}
use wjmmmdvm.Base.Linear.{xor_cancel}
use wjmmmdvm.Sip.Fec.Ambe.{AmbeFr, xor_down, scramble_bits, seed_loop, demodulate}

pub length-xor_down : (n : ℕ) (pr c1 : List ℕ) → length (xor_down n pr c1) ≡ length c1
unfolding xor_down
length-xor_down zero pr c1 = refl
length-xor_down (suc n) [] c1 = refl
length-xor_down (suc n) (p ∷ pr) c1 =
    length-xor_down n pr (set c1 n (bit_xor (get_or c1 n 0) (p % 2 ^ 8))) ∙ length-set c1 n _

-- Positions from `n` up are kept; below, position `n - 1 - k` meets scramble value `k`.
pub get_or-xor_down :
    (n : ℕ) (pr c1 : List ℕ) (i : ℕ)
    → n ≤ length pr
    → n ≤ length c1
    → get_or (xor_down n pr c1) i 0 ≡ (
        if ltb i n
        then bit_xor (get_or c1 i 0) (get_or pr (n - 1 - i) 0 % 2 ^ 8)
        else get_or c1 i 0)
unfolding xor_down
get_or-xor_down zero pr c1 i h k = ground arith
get_or-xor_down (suc n) [] c1 i h k = absurd (omega arith)
get_or-xor_down (suc n) (p ∷ pr) c1 i h k =
    let rest =
      get_or-xor_down n pr (set c1 n v) i (omega arith) (omega (arith, length-set c1 n v)) in
    elim (Bool-cases (ltb i n)) [
      | inl below ↦
          let e : suc n - 1 - i ≡ suc (n - 1 - i) = ground arith in
          ground (arith, rest, here, ap (λ m. get_or (p ∷ pr) m 0) e)
      | inr above ↦ elim (Bool-cases (i == n)) [
        | inl at ↦
            let e : suc n - 1 - i ≡ 0 = ground arith in
            ground (arith, rest, here, ap (λ m. get_or (p ∷ pr) m 0) e)
        | inr past ↦ ground (arith, rest, here)
      ]
    ]
  where
    v : ℕ
    v = bit_xor (get_or c1 n 0) (p % 2 ^ 8)

    here : get_or (set c1 n v) i 0 ≡ (if i == n then v else get_or c1 i 0)
    here = get_or-set c1 n i v 0 k

pub xor_down_twice :
    (n : ℕ) (pr c1 : List ℕ) → n ≤ length pr → n ≤ length c1 → xor_down n pr (xor_down n pr c1) ≡ c1
xor_down_twice n pr c1 h k =
    get_or_ext 0 _ c1 (length-xor_down n pr (xor_down n pr c1) ∙ length-xor_down n pr c1) λ i b.
      ground (
        arith,
        get_or-xor_down n pr (xor_down n pr c1) i h (omega (arith, length-xor_down n pr c1)),
        get_or-xor_down n pr c1 i h k,
        xor_cancel (get_or c1 i 0) (get_or pr (n - 1 - i) 0 % 2 ^ 8),
      )

pub length-scramble_bits : (foo : ℕ) → length (scramble_bits foo) ≡ 23
unfolding scramble_bits
length-scramble_bits foo = refl

-- For a frame of four rows whose second row has 24 bits, `demodulate` applied twice gives the
-- frame back.
pub demodulate_twice :
    (c0 c1 c2 c3 : List ℕ)
    → length c1 ≡ 24
    → let fr : AmbeFr = c0 ∷ c1 ∷ c2 ∷ c3 ∷ [] in demodulate (demodulate fr) ≡ fr
unfolding demodulate
demodulate_twice c0 c1 c2 c3 h =
    ap (λ (r : List ℕ). c0 ∷ r ∷ c2 ∷ c3 ∷ [])
      (xor_down_twice 23 (scramble_bits (seed_loop 12 c0 0)) c1
        (omega (arith, length-scramble_bits (seed_loop 12 c0 0))) (omega arith))

pub demodulate_form :
    (c0 c1 c2 c3 : List ℕ)
    → demodulate (c0 ∷ c1 ∷ c2 ∷ c3 ∷ [])
      ≡ c0 ∷ xor_down 23 (scramble_bits (seed_loop 12 c0 0)) c1 ∷ c2 ∷ c3 ∷ []
unfolding demodulate
demodulate_form c0 c1 c2 c3 = refl
