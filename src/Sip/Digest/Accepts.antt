-- ===== src/Sip/Digest/Accepts.antt =====
-- The answer of mmdvm_sip/src/digest_auth.rs before a server that knows the password.
use wjmmmdvm.Base.{
  ℕ, Bool, true, false, if◌then◌else◌, ◌≡◌, refl, sym, ◌∙◌, arith, List, [], ◌∷◌, map, Option, none,
  some, Bool-cases, inl, inr,
}
use wjmmmdvm.Base.Text.{
  Text, codes, text_eq, text_eq_of_eq, as_bytes, is_whitespace, strip_prefix, trim_start,
}
use wjmmmdvm.Sip.AuthParams.{Param, is_quoted_byte, parse_params}
use wjmmmdvm.Sip.AuthParams.Written.{
  param_of, NoQuote, NoQuote?, optional, quoted, All-map, bare_text,
}
use wjmmmdvm.Sip.Digest.{
  Hashing, DigestAuth, is_hex_digit, md5_hex, colons, wants_auth, compute, to_header_value,
}
use wjmmmdvm.Sip.Digest.Header.{IsPrintable, fields, parse_params-header}

-- The value of a parameter of an Authorization header.
abbrev pub find : Text → List Param → Option Text
find key [] = none
find key ((k, v) ∷ ps) = if text_eq key k then some v else find key ps

abbrev pub find_or_empty : Text → List Param → Text
find_or_empty key ps = elim (find key ps) [ none ↦ [] | some v ↦ v ]

no_quote : (c : ℕ) → is_hex_digit c ≡ true → is_quoted_byte c ≡ true
no_quote c d = ground arith

module _ (h : Hashing) where
  -- RFC 2617, section 3.2.2: what the server expects, from the header's other parameters.
  abbrev hash_of : List Text → Text
  hash_of parts = md5_hex h (as_bytes (colons parts))

  abbrev ha1 : Text → List Param → Text
  ha1 password ps =
      hash_of
        (find_or_empty (codes "username") ps ∷ find_or_empty (codes "realm") ps ∷ password ∷ [])

  abbrev ha2 : Text → List Param → Text
  ha2 method ps = hash_of (method ∷ find_or_empty (codes "uri") ps ∷ [])

  abbrev without_qop : Text → Text → List Param → Text
  without_qop password method ps =
      hash_of (ha1 password ps ∷ find_or_empty (codes "nonce") ps ∷ ha2 method ps ∷ [])

  unfoldable pub expected_response : Text → Text → List Param → Text
  expected_response password method ps = elim (find (codes "qop") ps) [
    | none ↦ without_qop password method ps
    | some qop ↦ hash_of (
        ha1 password ps
        ∷ find_or_empty (codes "nonce") ps
        ∷ find_or_empty (codes "nc") ps
        ∷ find_or_empty (codes "cnonce") ps
        ∷ qop
        ∷ ha2 method ps
        ∷ [])
  ]

  expected_plain :
      (password method : Text) (ps : List Param)
      → find (codes "qop") ps ≡ none
      → expected_response password method ps ≡ without_qop password method ps
  unfolding expected_response
  expected_plain password method ps e = rw (expected_response, e) refl

  unfoldable pub server_accepts : Text → Text → List Param → Bool
  unfolding expected_response
  server_accepts password method ps =
      text_eq (find_or_empty (codes "response") ps) (expected_response password method ps)

  hex-NoQuote : (bytes : List ℕ) → NoQuote (h.hex_encode bytes)
  hex-NoQuote bytes = All-map no_quote (h.hex_encode bytes) (h.hex_encode_digits bytes)

no_qop :
    (o : Option Text)
    → find (codes "qop") (map param_of (optional (quoted (codes "opaque")) o)) ≡ none
no_qop none = refl
no_qop (some x) = refl

only_opaque :
    (o : Option Text)
    → find (codes "opaque") (map param_of (optional (quoted (codes "opaque")) o)) ≡ o
only_opaque none = refl
only_opaque (some x) = refl

-- What the texts of the account and of the challenge must not hold.
pub record IsSayable (a : DigestAuth) : Type 0 where
  pub username_ok : NoQuote a.username
  pub realm_ok : NoQuote a.realm
  pub nonce_ok : NoQuote a.nonce
  pub uri_ok : NoQuote a.uri
  pub opaque_ok : NoQuote? a.opaque

module _ (h : Hashing) (a : DigestAuth) (random_bytes : List ℕ) where
  compute-IsPrintable : IsSayable a → IsPrintable (compute h a random_bytes)
  unfolding compute md5_hex is_whitespace
  compute-IsPrintable ok = elim (Bool-cases (wants_auth a.qop)) [
    | inl auth ↦ rw auth record {
      username_ok = ok.username_ok;
      realm_ok = ok.realm_ok;
      nonce_ok = ok.nonce_ok;
      uri_ok = ok.uri_ok;
      response_ok = hex-NoQuote h _;
      qop_ok = bare_text (codes "auth") refl;
      nc_ok = bare_text (codes "00000001") refl;
      cnonce_ok = hex-NoQuote h random_bytes;
      opaque_ok = ok.opaque_ok;
    }
    | inr plain ↦ rw plain record {
      username_ok = ok.username_ok;
      realm_ok = ok.realm_ok;
      nonce_ok = ok.nonce_ok;
      uri_ok = ok.uri_ok;
      response_ok = hex-NoQuote h _;
      qop_ok = tt;
      nc_ok = tt;
      cnonce_ok = tt;
      opaque_ok = ok.opaque_ok;
    }
  ]

  params : List Param
  params = map param_of (fields (compute h a random_bytes))

  -- The parameters that tell the server which formula to use.
  qop_sent : find (codes "qop") params ≡ (if wants_auth a.qop then some (codes "auth") else none)
  unfolding params compute
  qop_sent = elim (Bool-cases (wants_auth a.qop)) [
    | inl auth ↦ rw auth refl
    | inr plain ↦ rw plain (no_qop a.opaque)
  ]

  plain_lem :
      wants_auth a.qop ≡ false
      → find_or_empty (codes "response") params ≡ without_qop h a.password a.method params
  unfolding params compute
  plain_lem plain = rw plain refl

  auth_lem :
      wants_auth a.qop ≡ true
      → find_or_empty (codes "response") params ≡ expected_response h a.password a.method params
  unfolding params compute expected_response
  auth_lem auth = rw auth refl

  no_qop_sent : wants_auth a.qop ≡ false → find (codes "qop") params ≡ none
  no_qop_sent plain = qop_sent ∙ rw plain refl

  response_lem :
      find_or_empty (codes "response") params ≡ expected_response h a.password a.method params
  response_lem = elim (Bool-cases (wants_auth a.qop)) [
    | inl auth ↦ auth_lem auth
    | inr plain ↦
        plain_lem plain ∙ sym (expected_plain h a.password a.method params (no_qop_sent plain))
  ]

  accepted : server_accepts h a.password a.method params ≡ true
  unfolding server_accepts
  accepted = text_eq_of_eq response_lem

  opaque_sent : find (codes "opaque") params ≡ a.opaque
  unfolding params compute
  opaque_sent = elim (Bool-cases (wants_auth a.qop)) [
    | inl auth ↦ rw auth (only_opaque a.opaque)
    | inr plain ↦ rw plain (only_opaque a.opaque)
  ]

  -- For an account and challenge whose texts have no quote, the header value of `compute` begins
  -- with the scheme, `parse_params` reads what is behind it, and from these parameters a server
  -- that knows the password recomputes the response as RFC 2617 has it; `qop=auth` is sent
  -- exactly where the challenge's qop includes it, and the opaque text is sent back.
  pub header_accepted :
      IsSayable a
      → (s : Text) × (ps : List Param) × (strip_prefix
            (codes "Digest")
            (to_header_value (compute h a random_bytes))
          ≡ some s)
        × (parse_params (trim_start s) ≡ some ps)
        × (server_accepts h a.password a.method ps ≡ true)
        × (find (codes "qop") ps ≡ (if wants_auth a.qop then some (codes "auth") else none))
        × (find (codes "opaque") ps ≡ a.opaque)
  unfolding params
  header_accepted ok =
      let (s, scheme, parsed) =
        parse_params-header (compute h a random_bytes) (compute-IsPrintable ok) in
      (s, params, scheme, parsed, accepted, qop_sent, opaque_sent)
