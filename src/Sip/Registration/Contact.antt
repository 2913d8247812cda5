-- ===== src/Sip/Registration/Contact.antt =====
-- The `expires` of a Contact header in `extract_expires` of mmdvm_sip/src/registration.rs.
use wjmmmdvm.Base.{
  ℕ, ◌≡◌, refl, sym, ap, ◌∙◌, arith, false, [], ◌∷◌, ◌++◌, append_assoc, length, length-append,
  Option, none, some, All, All-append, Bool-cases, inl, inr,
}
use wjmmmdvm.Base.Text.{Text, codes, text_eq, text_eq→eq, lower, is_whitespace}
use wjmmmdvm.Sip.AuthParams.{parse_params}
use wjmmmdvm.Sip.AuthParams.Written.{
  Written, bare, print, param_of, IsKeyChar, IsBareChar, IsKey, IsWritten, IsKey-text,
}
use wjmmmdvm.Sip.AuthParams.RoundTrip.{parse_params-print}
use wjmmmdvm.Sip.Transport.{contact}
use wjmmmdvm.Sip.Registration.{params_of, expires_param, extract_expires}

parameter-IsKey : IsKey (codes ";expires")
unfolding lower is_whitespace
parameter-IsKey = IsKey-text b';' (codes "expires") refl

address-IsKey : (c : ℕ) (s : Text) → All IsKeyChar (c ∷ s) → IsKey ((c ∷ s) ++ codes ";expires")
address-IsKey c s h = All-append IsKeyChar (c ∷ s) (codes ";expires") h parameter-IsKey

not_expires : (c : ℕ) (s : Text) → text_eq ((c ∷ s) ++ codes ";expires") (codes "expires") ≡ false
not_expires c s = elim (Bool-cases (text_eq ((c ∷ s) ++ codes ";expires") (codes "expires"))) [
  | inl e ↦ absurd (
      omega (
        arith,
        ap length (text_eq→eq ((c ∷ s) ++ codes ";expires") (codes "expires") e),
        length-append {0} s (codes ";expires"),
      ))
  | inr e ↦ e
]

module _ (c : ℕ) (s value : Text) where
  abbrev whole : Written
  whole = bare ((c ∷ s) ++ codes ";expires") value

  params_lem :
      All IsKeyChar (c ∷ s)
      → All IsBareChar value
      → params_of ((c ∷ s) ++ codes ";expires=" ++ value) ≡ param_of whole ∷ []
  unfolding params_of
  params_lem h k =
      let written : IsWritten whole = record { key_ok = address-IsKey c s h; value_ok = k } in
      let text : (c ∷ s) ++ codes ";expires=" ++ value ≡ print whole =
        append_assoc (c ∷ s) (codes ";expires=") value
        ∙ sym (append_assoc (c ∷ s) (codes ";expires") (b'=' ∷ value)) in
      ap (λ t. elim (parse_params t) [ none ↦ [] | some ps ↦ ps ]) text
      ∙ ap (λ o. elim o [ none ↦ [] | some ps ↦ ps ]) (parse_params-print whole [] written tt)

  skipped : expires_param (param_of whole ∷ []) ≡ none
  unfolding expires_param
  skipped = rw (not_expires c s) refl

  -- For one Contact header that is an address with no capital, space, comma or equals sign, then
  -- `;expires=`, then a value with no quote, comma or space, `extract_expires` finds nothing.
  pub extract_expires_contact :
      All IsKeyChar (c ∷ s)
      → All IsBareChar value
      → extract_expires (contact ((c ∷ s) ++ codes ";expires=" ++ value) ∷ []) ≡ none
  unfolding extract_expires
  extract_expires_contact h k =
      let found : Option ℕ → Option ℕ = λ o. elim o [ none ↦ none | some n ↦ some n ] in
      ap (λ ps. found (expires_param ps)) (params_lem h k) ∙ ap found skipped
