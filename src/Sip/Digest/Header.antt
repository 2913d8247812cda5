-- ===== src/Sip/Digest/Header.antt =====
-- The header value of mmdvm_sip/src/digest_auth.rs, read by `parse_params` of
-- mmdvm_sip/src/registration.rs.
use wjmmmdvm.Base.{
  true, false, ◌≡◌, refl, ap, ap₂, ◌∙◌, List, ◌∷◌, ◌++◌, map, Option, none, some, All, All-append,
}
use mathlib.Core.List.{map-append}
use wjmmmdvm.Base.Text.{Text, codes, join, lower, strip_prefix, trim_start, is_whitespace}
use wjmmmdvm.Sip.AuthParams.{parse_params}
use wjmmmdvm.Sip.AuthParams.Written.{
  Written, print, param_of, IsWritten, IsBareChar, NoQuote, NoQuote?, IsBare?, quoted, bare,
  optional, bare_text, field, optional-quoted, optional-bare,
}
use wjmmmdvm.Sip.AuthParams.RoundTrip.{parse_params-print}
use wjmmmdvm.Sip.Digest.{
  DigestAlgorithm, md5, DigestResponse, to_header_value, algorithm_token, optional_part,
}

-- The parameters behind the first, in the order of the header.
abbrev pub other_fields : DigestResponse → List Written
other_fields r =
    quoted (codes "realm") r.realm
    ∷ quoted (codes "nonce") r.nonce
    ∷ quoted (codes "uri") r.uri
    ∷ quoted (codes "response") r.response
    ∷ bare (codes "algorithm") (algorithm_token r.algorithm)
    ∷ (optional (bare (codes "qop")) r.qop
        ++ optional (bare (codes "nc")) r.nc
        ++ optional (quoted (codes "cnonce")) r.cnonce
        ++ optional (quoted (codes "opaque")) r.opaque)

abbrev pub first_field : DigestResponse → Written
first_field r = quoted (codes "username") r.username

abbrev pub fields : DigestResponse → List Written
fields r = first_field r ∷ other_fields r

abbrev tail_parts : Option Text → Option Text → Option Text → Option Text → List Text
tail_parts qop nc cnonce opaque =
    optional_part (λ x. codes "qop=" ++ x) qop
    ++ optional_part (λ x. codes "nc=" ++ x) nc
    ++ optional_part (λ x. codes "cnonce=\"" ++ x ++ codes "\"") cnonce
    ++ optional_part (λ x. codes "opaque=\"" ++ x ++ codes "\"") opaque

abbrev tail_fields : Option Text → Option Text → Option Text → Option Text → List Written
tail_fields qop nc cnonce opaque =
    optional (bare (codes "qop")) qop
    ++ optional (bare (codes "nc")) nc
    ++ optional (quoted (codes "cnonce")) cnonce
    ++ optional (quoted (codes "opaque")) opaque

optional-print :
    (f : Text → Written) (o : Option Text)
    → optional_part (λ x. print (f x)) o ≡ map print (optional f o)
optional-print f none = refl
optional-print f (some x) = refl

tail_lem :
    (qop nc cnonce opaque : Option Text)
    → tail_parts qop nc cnonce opaque ≡ map print (tail_fields qop nc cnonce opaque)
tail_lem qop nc cnonce opaque =
    rw (map-append, map-append, map-append)
      (ap₂ ◌++◌
        (ap₂ ◌++◌
          (ap₂ ◌++◌ (optional-print (bare (codes "qop")) qop)
            (optional-print (bare (codes "nc")) nc))
          (optional-print (quoted (codes "cnonce")) cnonce))
        (optional-print (quoted (codes "opaque")) opaque))

header-print :
    (r : DigestResponse)
    → to_header_value r ≡ codes "Digest " ++ join (codes ", ") (map print (fields r))
unfolding to_header_value
header-print r =
    ap
      (λ t. join (codes ", ") (
        (codes "Digest username=\"" ++ r.username ++ codes "\"")
        ∷ (codes "realm=\"" ++ r.realm ++ codes "\"")
        ∷ (codes "nonce=\"" ++ r.nonce ++ codes "\"")
        ∷ (codes "uri=\"" ++ r.uri ++ codes "\"")
        ∷ (codes "response=\"" ++ r.response ++ codes "\"")
        ∷ (codes "algorithm=" ++ algorithm_token r.algorithm)
        ∷ t))
      (tail_lem r.qop r.nc r.cnonce r.opaque)

-- What a response must hold for its header to be read back.
pub record IsPrintable (r : DigestResponse) : Type 0 where
  pub username_ok : NoQuote r.username
  pub realm_ok : NoQuote r.realm
  pub nonce_ok : NoQuote r.nonce
  pub uri_ok : NoQuote r.uri
  pub response_ok : NoQuote r.response
  pub qop_ok : IsBare? r.qop
  pub nc_ok : IsBare? r.nc
  pub cnonce_ok : NoQuote? r.cnonce
  pub opaque_ok : NoQuote? r.opaque

-- What follows the scheme starts with a space, and then with the first key.
start_lem :
    (r : DigestResponse)
    → trim_start (b' ' ∷ join (codes ", ") (map print (fields r)))
      ≡ join (codes ", ") (map print (fields r))
unfolding trim_start is_whitespace
start_lem r = refl

token_bare : (a : DigestAlgorithm) → All IsBareChar (algorithm_token a)
unfolding is_whitespace
token_bare md5 = bare_text (codes "MD5") refl

module _ (r : DigestResponse) (ok : IsPrintable r) where
  tail_IsWritten : All IsWritten (tail_fields r.qop r.nc r.cnonce r.opaque)
  unfolding lower is_whitespace
  tail_IsWritten =
      let qop_nc =
        All-append IsWritten (optional (bare (codes "qop")) r.qop)
          (optional (bare (codes "nc")) r.nc) (optional-bare _ _ r.qop refl ok.qop_ok)
          (optional-bare _ _ r.nc refl ok.nc_ok) in
      let to_cnonce =
        All-append IsWritten _ (optional (quoted (codes "cnonce")) r.cnonce) qop_nc
          (optional-quoted _ _ r.cnonce refl ok.cnonce_ok) in
      All-append IsWritten _ (optional (quoted (codes "opaque")) r.opaque) to_cnonce
        (optional-quoted _ _ r.opaque refl ok.opaque_ok)

  other_fields-IsWritten : All IsWritten (other_fields r)
  unfolding lower is_whitespace
  other_fields-IsWritten = (
    field _ _ _ true refl ok.realm_ok,
    (
      field _ _ _ true refl ok.nonce_ok,
      (
        field _ _ _ true refl ok.uri_ok,
        (
          field _ _ _ true refl ok.response_ok,
          (field _ _ _ false refl (token_bare r.algorithm), tail_IsWritten),
        ),
      ),
    ),
  )

  first_field-IsWritten : IsWritten (first_field r)
  unfolding lower is_whitespace
  first_field-IsWritten = field _ _ _ true refl ok.username_ok

  pub parse_params-header :
      (s : Text) × (strip_prefix (codes "Digest") (to_header_value r) ≡ some s)
      × (parse_params (trim_start s) ≡ some (map param_of (fields r)))
  parse_params-header =
      let s = join (codes ", ") (map print (fields r)) in
      (
        b' ' ∷ s,
        ap (strip_prefix (codes "Digest")) (header-print r),
        ap parse_params (start_lem r)
            ∙ parse_params-print (first_field r) (other_fields r) first_field-IsWritten
                other_fields-IsWritten,
      )
