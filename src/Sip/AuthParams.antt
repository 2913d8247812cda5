-- ===== src/Sip/AuthParams.antt =====
-- `parse_params` of mmdvm_sip/src/registration.rs. The index `i` of the source is the text that is
-- left from there on.
pub mod Ends
pub mod Written
pub mod RoundTrip
mod Tests
use wjmmmdvm.Base.{
  ℕ, zero, suc, Bool, not, ◌&&◌, ◌||◌, if◌then◌else◌, ◌==◌, List, [], ◌∷◌, Option, none, some,
  length, drop,
}
use wjmmmdvm.Base.Text.{Text, take_while, drop_while, trim, to_ascii_lowercase}

abbrev pub Param : Type 0
Param = Text × Text

abbrev pub is_separator : ℕ → Bool
is_separator c = c == b' ' || c == b',' || c == b'\t'

abbrev pub is_key_byte : ℕ → Bool
is_key_byte c = not (c == b'=') && not (c == b',')

abbrev pub is_space : ℕ → Bool
is_space c = c == b' '

abbrev pub is_quoted_byte : ℕ → Bool
is_quoted_byte c = not (c == b'"')

abbrev pub is_bare_byte : ℕ → Bool
is_bare_byte c = not (c == b',')

-- The value, and what is left behind it: without its closing quote, where it has one.
unfoldable pub read_value : Text → Param
read_value [] = (trim [], [])
read_value (c ∷ s) =
    if c == b'"'
    then (take_while is_quoted_byte s, drop 1 (drop_while is_quoted_byte s))
    else (trim (take_while is_bare_byte (c ∷ s)), drop_while is_bare_byte (c ∷ s))

-- From the end of the key on: the `continue` of the source yields no parameter.
unfoldable pub read_after_key : Text → Text → Option Param × Text
unfolding read_value
read_after_key key [] = (none, [])
read_after_key key (c ∷ s) =
    if not (c == b'=')
    then (none, c ∷ s)
    else (let (value, rest) = read_value (drop_while is_space s) in (some (key, value), rest))

-- One round of the outer loop, behind the separators.
unfoldable pub read_param : Text → Option Param × Text
unfolding read_after_key
read_param s =
    read_after_key (to_ascii_lowercase (trim (take_while is_key_byte s))) (drop_while is_key_byte s)

abbrev pub push_param : Option Param → List Param → List Param
push_param none ps = ps
push_param (some p) ps = p ∷ ps

-- `none`: out of fuel.
unfoldable pub params_loop : ℕ → Text → Option (List Param)
unfolding read_param
params_loop zero input = none
params_loop (suc fuel) input = elim (drop_while is_separator input) [
  | [] ↦ some []
  | c ∷ s ↦
      let (param, rest) = read_param (c ∷ s) in
      elim (params_loop fuel rest) [ none ↦ none | some ps ↦ some (push_param param ps) ]
]

unfoldable pub parse_params : Text → Option (List Param)
unfolding params_loop
parse_params input = params_loop (suc (length input)) input
