-- ===== src/Sip/Fec/Golay/Bits.antt =====
-- The loops of `golay_23_12` of mmdvm_sip/src/fec/golay.rs over its arrays of bits.
use wjmmmdvm.Base.{ℕ, zero, suc, ◌+◌, ◌*◌, ◌%◌, ◌^◌, ◌≤◌, ◌<◌, ◌≡◌, refl, ap, ◌∙◌, sym, arith}
use wjmmmdvm.Base.{
  List, [], ◌∷◌, ◌++◌, append_assoc, true, get_or, set, take, drop, length, replicate, All, bit_or,
}
use wjmmmdvm.Base.{length-set, length-take, length-drop}
use wjmmmdvm.Base.Bits.{bit_or_shifted}
use wjmmmdvm.Base.Below.{all_below, all_below_sound}
use wjmmmdvm.Base.BitList.{
  IsBit, number, digits_of, same, same_sound, differences, differences-append,
}
use wjmmmdvm.Base.Index.{take-suc, drop-suc, drop-set, get_or-drop, All-get_or}
use wjmmmdvm.Sip.Fec.Golay.{pack_bits, unpack_data, copy_parity, count_errs}
use native.Mathlib.Nat.{pow-suc, one-le-pow}

push_bit : (block b : ℕ) → b < 2 → block < 2 ^ 31 → bit_or (block * 2 % 2 ^ 32) b ≡ block * 2 + b
push_bit block b h k =
    let e : block * 2 % 2 ^ 32 ≡ block * 2 = omega arith in
    rw e (bit_or_shifted block 1 h ∙ omega arith)

grow : (a p : ℕ) → 1 ≤ p → a ≤ a * p
grow a p h = grind arith

scaled : (a b p : ℕ) → a ≤ b → a * p ≤ b * p
scaled a b p h = grind arith

room_left :
    (block b n : ℕ)
    → b < 2
    → (block + 1) * 2 ^ suc n ≤ 2 ^ 31
    → (block * 2 + b + 1) * 2 ^ n ≤ 2 ^ 31
room_left block b n h room = omega (
  arith,
  ap (λ (t : ℕ). (block + 1) * t) (pow-suc 2 n),
  scaled (block * 2 + b + 1) ((block + 1) * 2) (2 ^ n) (omega arith),
)

-- What is packed so far, with room for the bits to come.
pub pack_bits-number :
    (n : ℕ) (bits : List ℕ) (block : ℕ)
    → All IsBit bits
    → n ≤ length bits
    → (block + 1) * 2 ^ n ≤ 2 ^ 31
    → block ≡ number (drop n bits)
    → pack_bits n bits block ≡ number bits
unfolding pack_bits number
pack_bits-number zero bits block h l room e = e
pack_bits-number (suc n) bits block h l room e =
    rw
      (push_bit block v v_bit
        (omega (arith, grow (block + 1) (2 ^ suc n) (one-le-pow (suc n) 2 (omega arith)))))
      (pack_bits-number n bits (block * 2 + v) h (omega arith) (room_left block v n v_bit room)
        (rw (drop-suc n bits 0 l, ← e) refl))
  where
    v : ℕ
    v = get_or bits n 0

    v_bit : v < 2
    v_bit = All-get_or IsBit bits n h l

unpack_table :
    all_below 4096
      (λ d. same (unpack_data 12 d (replicate 23 0)) (replicate 11 0 ++ digits_of 12 d))
    ≡ true
unfolding all_below same unpack_data digits_of
unpack_table = refl

pub unpack_data_lem :
    (d : ℕ) → d < 4096 → unpack_data 12 d (replicate 23 0) ≡ replicate 11 0 ++ digits_of 12 d
unpack_data_lem d h = same_sound _ _ (all_below_sound 4096 _ unpack_table d h)

pub copy_parity_lem :
    (n : ℕ) (bits out : List ℕ)
    → n ≤ length bits
    → n ≤ length out
    → copy_parity n bits out ≡ take n bits ++ drop n out
unfolding copy_parity
copy_parity_lem zero bits out h k = refl
copy_parity_lem (suc n) bits out h k =
    copy_parity_lem n bits (set out n v) (omega arith) (rw length-set (omega arith))
    ∙ ap (λ t. take n bits ++ t) (drop-set n out v k)
    ∙ sym (append_assoc (take n bits) (v ∷ []) (drop (suc n) out))
    ∙ ap (λ t. t ++ drop (suc n) out) (sym (take-suc n bits 0 h))
  where
    v : ℕ
    v = get_or bits n 0

pub count_errs_lem :
    (n : ℕ) (bits out : List ℕ) (errs : ℕ)
    → 11 + n ≤ length bits
    → 11 + n ≤ length out
    → count_errs n bits out errs ≡ errs + differences (take n (drop 11 out)) (take n (drop 11 bits))
unfolding count_errs differences
count_errs_lem zero bits out errs h k = omega arith
count_errs_lem (suc n) bits out errs h k =
    rw
      (
        take-suc n (drop 11 out) 0 (omega (arith, length-drop 11 out)),
        take-suc n (drop 11 bits) 0 (omega (arith, length-drop 11 bits)),
        get_or-drop 11 n out 0,
        get_or-drop 11 n bits 0,
      )
      (ground (
        arith,
        count_errs_lem n bits out errs,
        count_errs_lem n bits out (errs + 1),
        differences-append (take n (drop 11 out)) (take n (drop 11 bits)) (get_or out (11 + n) 0)
            (get_or bits (11 + n) 0),
        length-take n (drop 11 out),
        length-take n (drop 11 bits),
        length-drop 11 out,
        length-drop 11 bits,
      ))
