-- ===== src/Sip/Registration/Printed.antt =====
-- `parse_challenge` of mmdvm_sip/src/registration.rs reads back the header of a server.
use wjmmmdvm.Base.{
  ◌≡◌, refl, ap, ◌∙◌, true, List, [], ◌∷◌, ◌++◌, map, Option, none, some, All, All-append,
}
use wjmmmdvm.Base.Result.{Result, ok, ◌>>=◌, ok_or}
use wjmmmdvm.Base.Text.{Text, codes, join, lower, is_whitespace, trim_start, strip_prefix}
use wjmmmdvm.Sip.Error.{SipError, sip_parse}
use wjmmmdvm.Sip.AuthParams.{Param}
use wjmmmdvm.Sip.AuthParams.Written.{
  Written, print, param_of, IsWritten, NoQuote, NoQuote?, IsBare?, quoted, bare, optional, field,
  optional-quoted, optional-bare,
}
use wjmmmdvm.Sip.AuthParams.RoundTrip.{parse_params-print}
use wjmmmdvm.Sip.Digest.{Hashing, DigestAlgorithm, parse_algorithm}
use wjmmmdvm.Sip.Transport.{Rsip}
use wjmmmdvm.Sip.Registration.{
  Registration, Challenge, set_fields, no_fields, params_of, challenge_of, parse_header,
  parse_challenge, challenge_auth, auth_of,
}

-- The parameters behind the realm, as a server writes them.
abbrev more_fields : Challenge → List Written
more_fields c =
    quoted (codes "nonce") c.nonce
    ∷ (optional (quoted (codes "opaque")) c.opaque
        ++ optional (quoted (codes "qop")) c.qop
        ++ optional (bare (codes "algorithm")) c.algorithm)

abbrev pub challenge_text : Challenge → Text
challenge_text c =
    codes "Digest "
    ++ join (codes ", ") (map print (quoted (codes "realm") c.realm ∷ more_fields c))

pub record IsPrintable (c : Challenge) : Type 0 where
  pub realm_ok : NoQuote c.realm
  pub nonce_ok : NoQuote c.nonce
  pub opaque_ok : NoQuote? c.opaque
  pub qop_ok : NoQuote? c.qop
  pub algorithm_ok : IsBare? c.algorithm

module _ (c : Challenge) where
  start_lem :
      strip_prefix (codes "Digest") (trim_start (challenge_text c))
      ≡ some (b' ' ∷ join (codes ", ") (map print (quoted (codes "realm") c.realm ∷ more_fields c)))
  unfolding trim_start is_whitespace
  start_lem = refl

  behind_scheme :
      trim_start
        (b' ' ∷ join (codes ", ") (map print (quoted (codes "realm") c.realm ∷ more_fields c)))
      ≡ join (codes ", ") (map print (quoted (codes "realm") c.realm ∷ more_fields c))
  unfolding trim_start is_whitespace
  behind_scheme = refl

  module _ (ok : IsPrintable c) where
    more-IsWritten : All IsWritten (more_fields c)
    unfolding lower is_whitespace
    more-IsWritten =
        let opaque_qop =
          All-append IsWritten (optional (quoted (codes "opaque")) c.opaque)
            (optional (quoted (codes "qop")) c.qop) (optional-quoted _ _ c.opaque refl ok.opaque_ok)
            (optional-quoted _ _ c.qop refl ok.qop_ok) in
        (
          field _ _ _ true refl ok.nonce_ok,
          All-append IsWritten _ (optional (bare (codes "algorithm")) c.algorithm) opaque_qop
              (optional-bare _ _ c.algorithm refl ok.algorithm_ok),
        )

    realm-IsWritten : IsWritten (quoted (codes "realm") c.realm)
    unfolding lower is_whitespace
    realm-IsWritten = field _ _ _ true refl ok.realm_ok

    params_lem :
        params_of (join (codes ", ") (map print (quoted (codes "realm") c.realm ∷ more_fields c)))
        ≡ map param_of (quoted (codes "realm") c.realm ∷ more_fields c)
    unfolding params_of
    params_lem =
        ap (λ o. elim o [ none ↦ [] | some ps ↦ ps ])
          (parse_params-print (quoted (codes "realm") c.realm) (more_fields c) realm-IsWritten
            more-IsWritten)

abbrev challenge : Text → Text → Option Text → Option Text → Option Text → Challenge
challenge realm nonce opaque qop algorithm = record {
  realm = realm;
  nonce = nonce;
  opaque = opaque;
  qop = qop;
  algorithm = algorithm;
}

abbrev all_fields : Challenge → List Param
all_fields c = map param_of (quoted (codes "realm") c.realm ∷ more_fields c)

fields_lem :
    (realm nonce : Text) (opaque qop algorithm : Option Text)
    → challenge_of (set_fields (all_fields (challenge realm nonce opaque qop algorithm)) no_fields)
      ≡ ok (challenge realm nonce opaque qop algorithm)
unfolding challenge_of set_fields
fields_lem realm nonce none none none = refl
fields_lem realm nonce none none (some a) = refl
fields_lem realm nonce none (some q) none = refl
fields_lem realm nonce none (some q) (some a) = refl
fields_lem realm nonce (some o) none none = refl
fields_lem realm nonce (some o) none (some a) = refl
fields_lem realm nonce (some o) (some q) none = refl
fields_lem realm nonce (some o) (some q) (some a) = refl

parse_header-text : (c : Challenge) → IsPrintable c → parse_header (challenge_text c) ≡ ok c
unfolding parse_header
parse_header-text c h =
    let body : Option Text → Result SipError Challenge = λ o.
      ok_or o (sip_parse (codes "WWW-Authenticate not a Digest challenge")) >>= λ after.
      challenge_of (set_fields (params_of (trim_start after)) no_fields) in
    ap body (start_lem c)
    ∙ ap (λ t. challenge_of (set_fields (params_of t) no_fields)) (behind_scheme c)
    ∙ ap (λ ps. challenge_of (set_fields ps no_fields)) (params_lem c h)
    ∙ fields_lem c.realm c.nonce c.opaque c.qop c.algorithm

module _ (rsip : Rsip) (hashing : Hashing) where
  open rsip use {Response, www_authenticate}

  pub parse_challenge-text :
      (r : Response) (c : Challenge)
      → www_authenticate r ≡ some (challenge_text c)
      → IsPrintable c
      → parse_challenge rsip hashing r ≡ ok c
  unfolding parse_challenge
  parse_challenge-text r c e h = rw (parse_challenge, e) (parse_header-text c h)

  -- What the account answers to a challenge of a known algorithm.
  pub challenge_auth-text :
      (r : Response) (reg : Registration) (c : Challenge) {algorithm : DigestAlgorithm}
      → www_authenticate r ≡ some (challenge_text c)
      → IsPrintable c
      → parse_algorithm c.algorithm ≡ ok algorithm
      → challenge_auth rsip hashing r reg ≡ ok (auth_of rsip hashing reg c algorithm)
  unfolding challenge_auth
  challenge_auth-text r reg c e h known =
      ap
        (λ (x : Result SipError Challenge). x >>= λ c'.
          parse_algorithm c'.algorithm >>= λ algorithm. ok (auth_of rsip hashing reg c' algorithm))
        (parse_challenge-text r c e h)
      ∙ ap
          (λ (x : Result SipError DigestAlgorithm).
            x >>= λ algorithm. ok (auth_of rsip hashing reg c algorithm))
          known
