-- ===== src/Sip/Registration/Registers.antt =====
-- A whole registration of mmdvm_sip/src/registration.rs, with a server that challenges it.
use wjmmmdvm.Base.{
  ℕ, ◌≡◌, refl, ap, ◌∙◌, ◌⊎◌, List, [], ◌∷◌, ◌++◌, Bool, true, false, none, some, All,
  if◌then◌else◌,
}
use wjmmmdvm.Base.Result.{ok, err}
use wjmmmdvm.Base.Text.{Text, codes, as_bytes, strip_prefix, trim_start}
use wjmmmdvm.Sip.AuthParams.{Param, parse_params}
use wjmmmdvm.Sip.Digest.{
  Hashing, DigestAlgorithm, parse_algorithm, wants_auth, compute, to_header_value,
}
use wjmmmdvm.Sip.AuthParams.Written.{NoQuote}
use wjmmmdvm.Sip.Digest.Accepts.{find, server_accepts, IsSayable, header_accepted}
use wjmmmdvm.Sip.Transport.{
  StatusCodeKind, provisional, successful, redirection, request_failure, server_failure,
  global_failure, response, Rsip, Arrival, UdpTransport, recv,
}
use wjmmmdvm.Sip.Registration.{
  Registration, Challenge, Random, next_cseq, register_text, final_response, recv_response,
  registered, rejection, last_reply, perform, auth_of,
}
use wjmmmdvm.Sip.Registration.Printed.{challenge_text, IsPrintable, challenge_auth-text}
use wjmmmdvm.Sip.Registration.Flow.{IsDropped, recv_response_lem, first_text, perform_challenged}

abbrev pub is_successful : StatusCodeKind → Bool
is_successful successful = true
is_successful provisional = false
is_successful redirection = false
is_successful request_failure = false
is_successful server_failure = false
is_successful global_failure = false

module _ (rsip : Rsip) (hashing : Hashing) where
  open rsip use {Response, status_code, kind, www_authenticate}

  -- The server reads the header and finds the digest that it expects, under the formula and with
  -- the opaque text that it asked for.
  pub record IsAccepted (reg : Registration) (c : Challenge) (header : Text) : Type 0 where
    pub behind : Text
    pub params : List Param
    pub scheme : strip_prefix (codes "Digest") header ≡ some behind
    pub parsed : parse_params (trim_start behind) ≡ some params
    pub digest : server_accepts hashing reg.config.password (codes "REGISTER") params ≡ true
    pub qop : find (codes "qop") params ≡ (if wants_auth c.qop then some (codes "auth") else none)
    pub opaque : find (codes "opaque") params ≡ c.opaque

  auth_of-IsSayable :
      (reg : Registration) (c : Challenge) (algorithm : DigestAlgorithm)
      → IsPrintable c
      → NoQuote reg.config.auth_user
      → NoQuote reg.config.domain
      → IsSayable (auth_of rsip hashing reg c algorithm)
  auth_of-IsSayable reg c algorithm h user domain = record {
    username_ok = user;
    realm_ok = h.realm_ok;
    nonce_ok = h.nonce_ok;
    uri_ok = (refl, (refl, (refl, (refl, domain))));
    opaque_ok = h.opaque_ok;
  }

  header-IsAccepted :
      (reg : Registration) (c : Challenge) (algorithm : DigestAlgorithm) (cnonce : List ℕ)
      → IsPrintable c
      → NoQuote reg.config.auth_user
      → NoQuote reg.config.domain
      → IsAccepted reg c
          (to_header_value (compute hashing (auth_of rsip hashing reg c algorithm) cnonce))
  header-IsAccepted reg c algorithm cnonce h user domain =
      let (s, ps, scheme, parsed, digest, qop, opaque) =
        header_accepted hashing (auth_of rsip hashing reg c algorithm) cnonce
          (auth_of-IsSayable reg c algorithm h user domain) in
      record {
        behind = s;
        params = ps;
        scheme = scheme;
        parsed = parsed;
        digest = digest;
        qop = qop;
        opaque = opaque;
      }

  failure_is_final :
      (r : Response) → kind r ≡ request_failure → final_response rsip hashing (response r) ≡ some r
  failure_is_final r k = rw (final_response, k) refl

  last_reply_lem :
      (r : Response) (reg : Registration) (t : UdpTransport)
      → last_reply rsip hashing r reg t ≡ (
        if is_successful (kind r)
            then ok (registered rsip hashing reg r)
            else err (rejection rsip hashing r),
        reg,
        t,
      )
  unfolding last_reply
  last_reply_lem r reg t = by_kind (kind r) refl
    where
      by_kind :
          (x : StatusCodeKind)
          → kind r ≡ x
          → last_reply rsip hashing r reg t ≡ (
            if is_successful (kind r)
                then ok (registered rsip hashing reg r)
                else err (rejection rsip hashing r),
            reg,
            t,
          )
      by_kind successful e = rw (last_reply, e) refl
      by_kind _ e = rw (last_reply, e) refl

  -- The transport after a registration whose second request carries this header.
  abbrev pub registered_over :
      Random → Registration → List Arrival → UdpTransport → Text → UdpTransport
  registered_over random reg rest t header = record t {
    arrivals = rest;
    sent =
        (t.sent ++ (as_bytes (first_text rsip hashing random reg) ∷ []))
        ++ (as_bytes (
              register_text (next_cseq (next_cseq reg)) (hashing.hex_encode random.second_branch)
                (some header))
            ∷ []);
  }

  module _ (random : Random) (reg : Registration) (t : UdpTransport) (c : Challenge)
      (dropped₁ dropped₂ rest : List Arrival) (a₁ a₂ : Arrival) (r₁ r₂ : Response) where
    -- For a transport that takes every datagram and on which there arrive, between requests and
    -- provisional responses, a 401 or 407 whose WWW-Authenticate header is a printed challenge of
    -- a known algorithm, and then a final response, and for a user and domain without quotes:
    -- `perform` sends the REGISTER of the next CSeq without credentials and that of the one after
    -- it with a header, leaves what arrives later, and ends with the registration where the final
    -- response is successful and with its rejection where it is not; and a server that knows the
    -- password, and reads the header with `parse_params`, finds in it the response that RFC 2617
    -- expects, with `qop=auth` exactly where the challenge offers it, and the opaque text of the
    -- challenge.
    pub perform_registers :
        {algorithm : DigestAlgorithm}
        → t.refusals ≡ []
        → t.arrivals ≡ dropped₁ ++ a₁ ∷ (dropped₂ ++ a₂ ∷ rest)
        → All (IsDropped rsip hashing) dropped₁
        → All (IsDropped rsip hashing) dropped₂
        → recv rsip a₁ ≡ ok (response r₁)
        → kind r₁ ≡ request_failure
        → (status_code r₁ ≡ 401) ⊎ (status_code r₁ ≡ 407)
        → www_authenticate r₁ ≡ some (challenge_text c)
        → IsPrintable c
        → parse_algorithm c.algorithm ≡ ok algorithm
        → NoQuote reg.config.auth_user
        → NoQuote reg.config.domain
        → recv rsip a₂ ≡ ok (response r₂)
        → final_response rsip hashing (response r₂) ≡ some r₂
        → (header : Text) × (perform rsip hashing random reg t ≡ (
          if is_successful (kind r₂)
              then ok (registered rsip hashing (next_cseq (next_cseq reg)) r₂)
              else err (rejection rsip hashing r₂),
          next_cseq (next_cseq reg),
          registered_over random reg rest t header,
        ))
          × IsAccepted reg c header
    perform_registers {algorithm} none_refused e d₁ d₂ b₁ k s w p known user domain b₂ f₂ =
        let header =
          to_header_value (compute hashing (auth_of rsip hashing reg c algorithm) random.cnonce) in
        let first =
          ap (recv_response rsip hashing) e
          ∙ recv_response_lem rsip hashing dropped₁ a₁ r₁ (dropped₂ ++ a₂ ∷ rest) d₁
              (b₁, failure_is_final r₁ k) in
        (
          header,
          perform_challenged rsip hashing random reg t (auth_of rsip hashing reg c algorithm) r₁ r₂
                (dropped₂ ++ a₂ ∷ rest) rest none_refused first k s
                (challenge_auth-text rsip hashing r₁ (next_cseq reg) c w p known)
                (recv_response_lem rsip hashing dropped₂ a₂ r₂ rest d₂ (b₂, f₂))
              ∙ last_reply_lem r₂ (next_cseq (next_cseq reg))
                  (registered_over random reg rest t header),
          header-IsAccepted reg c algorithm random.cnonce p user domain,
        )
