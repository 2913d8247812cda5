-- ===== src/Sip/AuthParams/Written.antt =====
-- The parameters of a header as they are written, for `parse_params` of
-- mmdvm_sip/src/registration.rs.
use wjmmmdvm.Base.{
  ℕ, ◌≡◌, arith, Bool, true, false, not, ◌&&◌, ◌==◌, List, [], ◌∷◌, ◌++◌, Option, none, some, All,
}
use wjmmmdvm.Base.Text.{Text, lower, is_whitespace}
use wjmmmdvm.Base.Text.Scan.{Passes}
use wjmmmdvm.Sip.AuthParams.{Param, is_key_byte, is_quoted_byte, is_bare_byte}

-- A parameter as a header writes it: its value in quotes, or bare.
pub record Written : Type 0 where
  pub key : Text
  pub value : Text
  pub quoted : Bool

abbrev pub print_value : Bool → Text → Text
print_value true value = b'"' ∷ value ++ b'"' ∷ []
print_value false value = value

abbrev pub print : Written → Text
print w = w.key ++ b'=' ∷ print_value w.quoted w.value

abbrev pub param_of : Written → Param
param_of w = (w.key, w.value)

-- A character of a key: no capital, no space, and neither of the two delimiters.
pub record IsKeyChar (c : ℕ) : Type 0 where
  pub in_key : is_key_byte c ≡ true
  pub dense : is_whitespace c ≡ false
  pub small : lower c ≡ c

pub record IsBareChar (c : ℕ) : Type 0 where
  pub in_value : is_bare_byte c ≡ true
  pub no_quote : is_quoted_byte c ≡ true
  pub dense : is_whitespace c ≡ false

abbrev pub IsValue : Bool → Text → Type 0
IsValue true value = Passes is_quoted_byte value
IsValue false value = All IsBareChar value

abbrev pub IsKey : Text → Type 0
IsKey [] = ⊥
IsKey (c ∷ s) = All IsKeyChar (c ∷ s)

pub record IsWritten (w : Written) : Type 0 where
  pub key_ok : IsKey w.key
  pub value_ok : IsValue w.quoted w.value

abbrev pub quoted : Text → Text → Written
quoted key value = record { key = key; value = value; quoted = true }

abbrev pub bare : Text → Text → Written
bare key value = record { key = key; value = value; quoted = false }

abbrev pub optional : (Text → Written) → Option Text → List Written
optional f none = []
optional f (some x) = f x ∷ []

-- A text that a header may hold in quotes.
abbrev pub NoQuote : Text → Type 0
NoQuote t = Passes is_quoted_byte t

abbrev pub NoQuote? : Option Text → Type 0
NoQuote? none = Unit {0}
NoQuote? (some t) = NoQuote t

abbrev pub IsBare? : Option Text → Type 0
IsBare? none = Unit {0}
IsBare? (some t) = All IsBareChar t

-- The conditions on a character of a key, and of a bare value, as tests.
abbrev pub key_test : ℕ → Bool
key_test c = is_key_byte c && not (is_whitespace c) && (lower c == c)

abbrev bare_test : ℕ → Bool
bare_test c = is_bare_byte c && is_quoted_byte c && not (is_whitespace c)

key_char : (c : ℕ) → key_test c ≡ true → IsKeyChar c
key_char c h = record { in_key = ground arith; dense = ground arith; small = ground arith }

bare_char : (c : ℕ) → bare_test c ≡ true → IsBareChar c
bare_char c h = record { in_value = ground arith; no_quote = ground arith; dense = ground arith }

abbrev pub all : (ℕ → Bool) → Text → Bool
all p [] = true
all p (c ∷ s) = p c && all p s

pub all-Passes : (p : ℕ → Bool) (s : Text) → all p s ≡ true → Passes p s
all-Passes p [] h = tt
all-Passes p (c ∷ s) h = (ground arith, all-Passes p s (ground arith))

pub All-map {ℓ} :
    {P : ℕ → Type ℓ} {Q : ℕ → Type 0} → ((c : ℕ) → P c → Q c) → (s : Text) → All P s → All Q s
All-map f [] h = tt
All-map f (c ∷ s) h = (f c h.0, All-map f s h.1)

pub bare_text : (s : Text) → all bare_test s ≡ true → All IsBareChar s
bare_text s h = All-map bare_char s (all-Passes bare_test s h)

pub IsKey-text : (c : ℕ) (s : Text) → all key_test (c ∷ s) ≡ true → IsKey (c ∷ s)
IsKey-text c s h = All-map key_char (c ∷ s) (all-Passes key_test (c ∷ s) h)

pub field :
    (c : ℕ) (key value : Text) (q : Bool)
    → all key_test (c ∷ key) ≡ true
    → IsValue q value
    → IsWritten (record { key = c ∷ key; value = value; quoted = q })
field c key value q h k = record { key_ok = IsKey-text c key h; value_ok = k }

pub optional-quoted :
    (c : ℕ) (key : Text) (o : Option Text)
    → all key_test (c ∷ key) ≡ true
    → NoQuote? o
    → All IsWritten (optional (quoted (c ∷ key)) o)
optional-quoted c key none h k = tt
optional-quoted c key (some x) h k = (field c key x true h k, tt)

pub optional-bare :
    (c : ℕ) (key : Text) (o : Option Text)
    → all key_test (c ∷ key) ≡ true
    → IsBare? o
    → All IsWritten (optional (bare (c ∷ key)) o)
optional-bare c key none h k = tt
optional-bare c key (some x) h k = (field c key x false h k, tt)
