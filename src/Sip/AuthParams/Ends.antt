-- ===== src/Sip/AuthParams/Ends.antt =====
-- The loop of `parse_params`, mmdvm_sip/src/registration.rs, ends.
use wjmmmdvm.Base.{
  ℕ, zero, suc, ◌≤◌, ◌<◌, ◌≡◌, refl, ap, arith, true, false, ◌==◌, List, [], ◌∷◌, some, length,
  length-drop, Bool-cases, inl, inr,
}
use wjmmmdvm.Base.Text.{Text, take_while, drop_while, trim, to_ascii_lowercase}
use wjmmmdvm.Base.Text.Scan.{Stops, drop_while-Stops, length-drop_while-le}
use wjmmmdvm.Sip.AuthParams.{
  Param, is_separator, is_key_byte, is_space, is_quoted_byte, is_bare_byte, read_value,
  read_after_key, read_param, push_param, params_loop, parse_params,
}

read_value-le : (s : Text) → length (read_value s).1 ≤ length s
unfolding read_value
read_value-le [] = omega arith
read_value-le (c ∷ s) = elim (Bool-cases (c == b'"')) [
  | inl quote ↦ rw quote (
      omega (
        arith,
        length-drop {0} 1 (drop_while is_quoted_byte s),
        length-drop_while-le is_quoted_byte s,
      ))
  | inr bare ↦ rw bare (length-drop_while-le is_bare_byte (c ∷ s))
]

read_after_key-le : (key s : Text) → length (read_after_key key s).1 ≤ length s
unfolding read_after_key
read_after_key-le key [] = omega arith
read_after_key-le key (c ∷ s) = elim (Bool-cases (c == b'=')) [
  | inl e ↦
      rw e (omega (arith, read_value-le (drop_while is_space s), length-drop_while-le is_space s))
  | inr e ↦ rw e (omega arith)
]

-- At the equals sign the round takes it, and any other first character goes to the key.
read_param-lt :
    (c : ℕ) (s : Text) → is_separator c ≡ false → length (read_param (c ∷ s)).1 < length (c ∷ s)
unfolding read_param
read_param-lt c s h = elim (Bool-cases (c == b'=')) [
  | inl e ↦ rw e (
      unfold read_after_key in
      rw e (omega (arith, read_value-le (drop_while is_space s), length-drop_while-le is_space s)))
  | inr e ↦
      let key : is_key_byte c ≡ true = ground arith in
      rw key (
        omega (
          arith,
          read_after_key-le (to_ascii_lowercase (trim (c ∷ take_while is_key_byte s)))
              (drop_while is_key_byte s),
          length-drop_while-le is_key_byte s,
        ))
]

abbrev Ends : ℕ → Text → Type 0
Ends fuel input = (ps : List Param) × (params_loop fuel input ≡ some ps)

round-Ends :
    (fuel : ℕ) (input left : Text)
    → drop_while is_separator input ≡ left
    → length input < suc fuel
    → ((rest : Text) → length rest < fuel → Ends fuel rest)
    → Ends (suc fuel) input
unfolding params_loop
round-Ends fuel input [] e h more = ([], rw (params_loop, e) refl)
round-Ends fuel input (c ∷ s) e h more =
    let stop : Stops is_separator (c ∷ s) = rw e at (drop_while-Stops is_separator input) in
    let (ps, r) = more (read_param (c ∷ s)).1 (
      omega
        (arith, read_param-lt c s stop, ap length e, length-drop_while-le is_separator input)) in
    (push_param (read_param (c ∷ s)).0 ps, rw (params_loop, e, r) refl)

pub params_loop-Ends : (fuel : ℕ) (input : Text) → length input < fuel → Ends fuel input
params_loop-Ends zero input h = absurd (omega arith)
params_loop-Ends (suc fuel) input h =
    round-Ends fuel input (drop_while is_separator input) refl h (params_loop-Ends fuel)

-- For every text, `parse_params` does not run out of fuel.
pub parse_params_total : (input : Text) → (ps : List Param) × (parse_params input ≡ some ps)
unfolding parse_params
parse_params_total input = params_loop-Ends (suc (length input)) input (omega arith)
