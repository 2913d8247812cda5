-- ===== src/Sip/AuthParams/RoundTrip.antt =====
-- `parse_params` of mmdvm_sip/src/registration.rs reads back a printed list of parameters.
use wjmmmdvm.Base.{
  ℕ, zero, suc, ◌<◌, ◌≡◌, refl, ap, ap₂, ◌∙◌, sym, arith, Bool, true, false, ◌==◌, List, [], ◌∷◌,
  ◌++◌, map, Option, none, some, length, length-append, append-nil, append_assoc, All, drop,
}
use wjmmmdvm.Base.Text.{Text, drop_while, trim, to_ascii_lowercase, is_whitespace, join, codes}
use wjmmmdvm.Base.Text.Scan.{Passes, Stops, take_while-append, drop_while-append, drop_while_stop}
use wjmmmdvm.Base.Text.Trim.{IsDense, trim-dense}
use wjmmmdvm.Sip.AuthParams.{
  Param, is_separator, is_key_byte, is_space, is_quoted_byte, is_bare_byte, read_value,
  read_after_key, read_param, push_param, params_loop, parse_params,
}
use wjmmmdvm.Sip.AuthParams.Written.{
  Written, print_value, print, param_of, IsKeyChar, IsBareChar, IsValue, IsKey, IsWritten,
}

key-Passes : (s : Text) → All IsKeyChar s → Passes is_key_byte s
key-Passes [] h = tt
key-Passes (c ∷ s) h = (h.0.in_key, key-Passes s h.1)

key-IsDense : (s : Text) → All IsKeyChar s → IsDense s
key-IsDense [] h = tt
key-IsDense (c ∷ s) h = (h.0.dense, key-IsDense s h.1)

key_small : (s : Text) → All IsKeyChar s → to_ascii_lowercase s ≡ s
unfolding to_ascii_lowercase
key_small [] h = refl
key_small (c ∷ s) h = ap₂ ◌∷◌ h.0.small (key_small s h.1)

bare-Passes : (s : Text) → All IsBareChar s → Passes is_bare_byte s
bare-Passes [] h = tt
bare-Passes (c ∷ s) h = (h.0.in_value, bare-Passes s h.1)

bare-IsDense : (s : Text) → All IsBareChar s → IsDense s
bare-IsDense [] h = tt
bare-IsDense (c ∷ s) h = (h.0.dense, bare-IsDense s h.1)

IsKey-All : (s : Text) → IsKey s → All IsKeyChar s
IsKey-All [] h = absurd h
IsKey-All (c ∷ s) h = h

-- What may follow a printed parameter: nothing, or a comma.
abbrev pub Follows : Text → Type 0
Follows [] = Unit {0}
Follows (c ∷ s) = c ≡ b','

Follows-Stops : (rest : Text) → Follows rest → Stops is_bare_byte rest
Follows-Stops [] h = tt
Follows-Stops (c ∷ s) h = rw h refl

read_bare :
    (value rest : Text)
    → All IsBareChar value
    → Follows rest
    → read_value (drop_while is_space (value ++ rest)) ≡ (value, rest)
unfolding read_value is_whitespace trim
read_bare [] [] h k = refl
read_bare [] (c ∷ s) h k = rw k refl
read_bare (c ∷ s) rest h k =
    let q : (c == b'"') ≡ false = ground (arith, h.0.no_quote) in
    let sp : (c == b' ') ≡ false = ground (arith, h.0.dense) in
    rw sp (
      rw q (
        ap₂ (λ v r. (v, r))
          (ap trim (
              take_while-append is_bare_byte (c ∷ s) rest (bare-Passes (c ∷ s) h)
                (Follows-Stops rest k))
            ∙ trim-dense (c ∷ s) (bare-IsDense (c ∷ s) h))
          (drop_while-append is_bare_byte (c ∷ s) rest (bare-Passes (c ∷ s) h)
            (Follows-Stops rest k))))

read_quoted :
    (value rest : Text)
    → Passes is_quoted_byte value
    → read_value (drop_while is_space (b'"' ∷ (value ++ b'"' ∷ rest))) ≡ (value, rest)
unfolding read_value
read_quoted value rest h =
    ap₂ (λ v r. (v, drop 1 r)) (take_while-append is_quoted_byte value (b'"' ∷ rest) h refl)
      (drop_while-append is_quoted_byte value (b'"' ∷ rest) h refl)

read_printed :
    (q : Bool) (value rest : Text)
    → IsValue q value
    → Follows rest
    → read_value (drop_while is_space (print_value q value ++ rest)) ≡ (value, rest)
read_printed true value rest h k =
    ap (λ t. read_value (b'"' ∷ t)) (append_assoc value (b'"' ∷ []) rest) ∙ read_quoted value rest h
read_printed false value rest h k = read_bare value rest h k

print_append :
    (w : Written) (rest : Text)
    → print w ++ rest ≡ w.key ++ (b'=' ∷ (print_value w.quoted w.value ++ rest))
print_append w rest = append_assoc w.key (b'=' ∷ print_value w.quoted w.value) rest

after_key :
    (w : Written) (rest : Text)
    → IsWritten w
    → Follows rest
    → read_after_key w.key (b'=' ∷ (print_value w.quoted w.value ++ rest))
      ≡ (some (param_of w), rest)
unfolding read_after_key
after_key w rest h k =
    ap (λ (r : Text × Text). (some (w.key, r.0), r.1))
      (read_printed w.quoted w.value rest h.value_ok k)

read_param-print :
    (w : Written) (rest : Text)
    → IsWritten w
    → Follows rest
    → read_param (print w ++ rest) ≡ (some (param_of w), rest)
unfolding read_param
read_param-print w rest h k =
    let chars = IsKey-All w.key h.key_ok in
    let tail = b'=' ∷ (print_value w.quoted w.value ++ rest) in
    ap read_param (print_append w rest)
    ∙ ap₂ read_after_key
        (ap (λ t. to_ascii_lowercase (trim t))
            (take_while-append is_key_byte w.key tail (key-Passes w.key chars) refl)
          ∙ ap to_ascii_lowercase (trim-dense w.key (key-IsDense w.key chars))
          ∙ key_small w.key chars)
        (drop_while-append is_key_byte w.key tail (key-Passes w.key chars) refl)
    ∙ after_key w rest h k

-- A printed parameter starts with a character that is no separator.
abbrev Starts : Text → Type 0
Starts t = (c : ℕ) × (s : Text) × (t ≡ c ∷ s) × (is_separator c ≡ false)

key-Starts : (key rest : Text) → IsKey key → Starts (key ++ rest)
unfolding is_whitespace
key-Starts [] rest h = absurd h
key-Starts (c ∷ s) rest h = (c, s ++ rest, refl, ground (arith, h.0.in_key, h.0.dense))

print-Starts : (w : Written) (rest : Text) → IsWritten w → Starts (print w ++ rest)
print-Starts w rest h =
    let (c, s, e, n) = key-Starts w.key (b'=' ∷ (print_value w.quoted w.value ++ rest)) h.key_ok in
    (c, s, print_append w rest ∙ e, n)

loop_round :
    (fuel : ℕ) (input : Text) (c : ℕ) (s : Text) {p : Param} {rest : Text} {ps : List Param}
    → drop_while is_separator input ≡ c ∷ s
    → read_param (c ∷ s) ≡ (some p, rest)
    → params_loop fuel rest ≡ some ps
    → params_loop (suc fuel) input ≡ some (p ∷ ps)
unfolding params_loop
loop_round fuel input c s first param more =
    let body : Option Param × Text → Option (List Param) =
      λ x. elim (params_loop fuel x.1) [ none ↦ none | some ps ↦ some (push_param x.0 ps) ] in
    let unrolled : params_loop (suc fuel) input ≡ body (read_param (c ∷ s)) =
      rw (params_loop, first) refl in
    unrolled ∙ ap body param ∙ rw more refl

loop_step :
    (fuel : ℕ) (input rest : Text) (w : Written) {ps : List Param}
    → IsWritten w
    → Follows rest
    → drop_while is_separator input ≡ print w ++ rest
    → params_loop fuel rest ≡ some ps
    → params_loop (suc fuel) input ≡ some (param_of w ∷ ps)
loop_step fuel input rest w h k e r =
    let (c, s, starts, n) = print-Starts w rest h in
    let first = e ∙ starts in
    let param = ap read_param (sym starts) ∙ read_param-print w rest h k in
    loop_round fuel input c s first param r

-- The parameters behind the first, each with its separator.
abbrev pub more_params : List Written → Text
more_params [] = []
more_params (w ∷ ws) = b',' ∷ b' ' ∷ print w ++ more_params ws

more-Follows : (ws : List Written) → Follows (more_params ws)
more-Follows [] = tt
more-Follows (w ∷ ws) = refl

drop_while-Starts : {t : Text} → Starts t → drop_while is_separator t ≡ t
drop_while-Starts (c, s, e, n) = rw e (drop_while_stop is_separator (c ∷ s) n)

loop_more :
    (ws : List Written) (fuel : ℕ)
    → All IsWritten ws
    → length (more_params ws) < fuel
    → params_loop fuel (more_params ws) ≡ some (map param_of ws)
unfolding params_loop
loop_more ws zero h l = absurd (omega arith)
loop_more [] (suc fuel) h l = refl
loop_more (w ∷ ws) (suc fuel) h l =
    loop_step fuel (more_params (w ∷ ws)) (more_params ws) w h.0 (more-Follows ws)
      (drop_while-Starts (print-Starts w (more_params ws) h.0))
      (loop_more ws fuel h.1 (omega (arith, length-append (print w) (more_params ws))))

pub loop_print :
    (w : Written) (ws : List Written) (fuel : ℕ)
    → IsWritten w
    → All IsWritten ws
    → length (print w ++ more_params ws) < fuel
    → params_loop fuel (print w ++ more_params ws) ≡ some (map param_of (w ∷ ws))
loop_print w ws zero h hs l = absurd (omega arith)
loop_print w ws (suc fuel) h hs l =
    let (c, s, e, n) = print-Starts w (more_params ws) h in
    loop_step fuel (print w ++ more_params ws) (more_params ws) w h (more-Follows ws)
      (drop_while-Starts (print-Starts w (more_params ws) h))
      (loop_more ws fuel hs (
        omega (
          arith,
          length-append (print w) (more_params ws),
          length-append w.key (b'=' ∷ print_value w.quoted w.value),
        )))

pub join-more_params :
    (w : Written) (ws : List Written)
    → join (codes ", ") (map print (w ∷ ws)) ≡ print w ++ more_params ws
join-more_params w [] = sym (append-nil (print w))
join-more_params w (v ∷ ws) =
    append_assoc (print w) (codes ", ") (join (codes ", ") (map print (v ∷ ws)))
    ∙ ap (λ t. print w ++ (b',' ∷ b' ' ∷ t)) (join-more_params v ws)

-- For one or more parameters whose keys are not empty and have no capital, space, comma or equals
-- sign, and whose values have no quote where they are in quotes, and else no quote, comma or
-- space, `parse_params` on the parameters printed one behind the other with a comma and a space
-- between them returns them in their order.
pub parse_params-print :
    (w : Written) (ws : List Written)
    → IsWritten w
    → All IsWritten ws
    → parse_params (join (codes ", ") (map print (w ∷ ws))) ≡ some (map param_of (w ∷ ws))
unfolding parse_params
parse_params-print w ws h hs =
    ap parse_params (join-more_params w ws)
    ∙ loop_print w ws (suc (length (print w ++ more_params ws))) h hs (omega arith)
