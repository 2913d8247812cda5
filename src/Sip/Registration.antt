-- ===== src/Sip/Registration.antt =====
-- mmdvm_sip/src/registration.rs: the REGISTER, its challenge and the answer. The random bytes are an
-- argument. What `parse_params` returns for the values of headers stands without its fuel, which is
-- always enough.
pub mod Printed
pub mod Flow
pub mod Registers
pub mod Contact
pub mod Returns
pub mod Requests
pub mod Sample
mod Tests
use wjmmmdvm.Base.{
  ℕ, suc, ◌+◌, ◌*◌, ◌%◌, ◌^◌, Bool, true, false, ◌||◌, ◌&&◌, if◌then◌else◌, ◌==◌, List, [], ◌∷◌,
  ◌++◌, Option, none, some,
}
use wjmmmdvm.Base.Result.{Result, ok, err, stuck, ◌>>=◌, ok_or}
use wjmmmdvm.Base.Text.{
  Text, codes, text_eq, trim_start, strip_prefix, decimal, parse_u32, as_bytes,
}
use wjmmmdvm.Sip.Error.{
  SipError, sip_parse, missing_header, registration_rejected, response_timeout,
}
use wjmmmdvm.Sip.AuthParams.{Param, parse_params}
use wjmmmdvm.Sip.Digest.{
  Hashing, DigestAlgorithm, DigestAuth, parse_algorithm, compute, to_header_value,
}
use wjmmmdvm.Sip.Transport.{
  StatusCodeKind, provisional, successful, request_failure, SipMessage, request, response, Header,
  expires, contact, Rsip, Arrival, UdpTransport, send, recv,
}

-- mmdvm_sip/src/config.rs
pub record SipConfig : Type 0 where
  pub server : Text
  pub server_port : ℕ
  pub domain : Text
  pub user : Text
  pub auth_user : Text
  pub password : Text
  pub local_port : ℕ
  pub expires : ℕ
  pub user_agent : Text

-- `local` as its two parts, the address as it is printed.
pub record Registration : Type 0 where
  pub config : SipConfig
  pub local_ip : Text
  pub local_port : ℕ
  pub call_id : Text
  pub from_tag : Text
  pub cseq : ℕ

pub record Registered : Type 0 where
  pub expires : ℕ

pub record Challenge : Type 0 where
  pub realm : Text
  pub nonce : Text
  pub opaque : Option Text
  pub qop : Option Text
  pub algorithm : Option Text

-- The variables of `parse_challenge`, while it goes through the parameters.
pub record Fields : Type 0 where
  pub realm : Option Text
  pub nonce : Option Text
  pub opaque : Option Text
  pub qop : Option Text
  pub algorithm : Option Text

unfoldable pub set_field : Param → Fields → Fields
set_field (k, v) f =
    if text_eq k (codes "realm")
    then record f { realm = some v }
    else if text_eq k (codes "nonce")
    then record f { nonce = some v }
    else if text_eq k (codes "opaque")
    then record f { opaque = some v }
    else if text_eq k (codes "qop")
    then record f { qop = some v }
    else if text_eq k (codes "algorithm")
    then record f { algorithm = some v }
    else f

unfoldable pub set_fields : List Param → Fields → Fields
unfolding set_field
set_fields [] f = f
set_fields (p ∷ ps) f = set_fields ps (set_field p f)

abbrev pub no_fields : Fields
no_fields = record { realm = none; nonce = none; opaque = none; qop = none; algorithm = none }

unfoldable pub params_of : Text → List Param
params_of raw = elim (parse_params raw) [ none ↦ [] | some ps ↦ ps ]

unfoldable pub challenge_of : Fields → Result SipError Challenge
challenge_of f = do
  realm ← ok_or f.realm (sip_parse (codes "challenge missing realm"))
  nonce ← ok_or f.nonce (sip_parse (codes "challenge missing nonce"))
  ok (record {
    realm = realm;
    nonce = nonce;
    opaque = f.opaque;
    qop = f.qop;
    algorithm = f.algorithm;
  })

-- From the value of the header on.
unfoldable pub parse_header : Text → Result SipError Challenge
unfolding params_of set_fields challenge_of
parse_header raw = do
  after ←
      ok_or (strip_prefix (codes "Digest") (trim_start raw))
        (sip_parse (codes "WWW-Authenticate not a Digest challenge"))
  challenge_of (set_fields (params_of (trim_start after)) no_fields)

-- The first `expires` parameter whose value is a number.
unfoldable pub expires_param : List Param → Option ℕ
expires_param [] = none
expires_param ((k, v) ∷ ps) =
    let rest = expires_param ps in
    if text_eq k (codes "expires")
    then elim (parse_u32 v) [ none ↦ rest | some n ↦ some n ]
    else rest

unfoldable pub expires_header : List Header → Option ℕ
expires_header [] = none
expires_header (expires (some n) ∷ hs) = some n
expires_header (expires none ∷ hs) = expires_header hs
expires_header (contact raw ∷ hs) = expires_header hs
expires_header (Header.other ∷ hs) = expires_header hs

unfoldable pub contact_expires : List Header → Option ℕ
unfolding expires_param params_of
contact_expires [] = none
contact_expires (expires seconds ∷ hs) = contact_expires hs
contact_expires (contact raw ∷ hs) =
    let rest = contact_expires hs in
    elim (expires_param (params_of raw)) [ none ↦ rest | some n ↦ some n ]
contact_expires (Header.other ∷ hs) = contact_expires hs

unfoldable pub extract_expires : List Header → Option ℕ
unfolding expires_header contact_expires
extract_expires hs = elim (expires_header hs) [ none ↦ contact_expires hs | some n ↦ some n ]

abbrev pub unwrap_or : Option ℕ → ℕ → ℕ
unwrap_or none d = d
unwrap_or (some n) d = n

abbrev pub line : List Text → Text
line [] = codes "\r\n"
line (t ∷ ts) = t ++ line ts

abbrev pub auth_line : Option Text → Text
auth_line none = []
auth_line (some h) = line (codes "Authorization: " ∷ h ∷ [])

-- The request as a text, for the `cseq` that it carries.
unfoldable pub register_text : Registration → Text → Option Text → Text
register_text r random auth =
    let c = r.config in
    let uri = codes "<sip:" ++ c.user ++ codes "@" ++ c.domain ++ codes ">" in
    let address = r.local_ip ++ codes ":" ++ decimal r.local_port in
    line (codes "REGISTER sip:" ∷ c.server ∷ codes " SIP/2.0" ∷ [])
    ++ line (codes "Via: SIP/2.0/UDP " ∷ address ∷ codes ";rport;branch=z9hG4bK" ∷ random ∷ [])
    ++ line (codes "Max-Forwards: 70" ∷ [])
    ++ line (codes "From: " ∷ uri ∷ codes ";tag=" ∷ r.from_tag ∷ [])
    ++ line (codes "To: " ∷ uri ∷ [])
    ++ line (codes "Call-ID: " ∷ r.call_id ∷ [])
    ++ line (codes "CSeq: " ∷ decimal r.cseq ∷ codes " REGISTER" ∷ [])
    ++ line (codes "Contact: <sip:" ∷ c.user ∷ codes "@" ∷ address ∷ codes ">" ∷ [])
    ++ line (codes "Expires: " ∷ decimal c.expires ∷ [])
    ++ line (codes "Allow: REGISTER, INVITE, ACK, BYE, CANCEL, OPTIONS" ∷ [])
    ++ line (codes "User-Agent: " ∷ c.user_agent ∷ [])
    ++ auth_line auth
    ++ line (codes "Content-Length: 0" ∷ [])
    ++ line []

-- `cseq += 1` on a `u32`, which wraps in a release build.
abbrev pub next_cseq : Registration → Registration
next_cseq r = record r { cseq = (r.cseq + 1) % 2 ^ 32 }

unfoldable pub build_register : Registration → Text → Option Text → Text × Registration
build_register r random auth = (register_text (next_cseq r) random auth, next_cseq r)

-- The random bytes of one `perform`: two branches, and the `cnonce` between them.
pub record Random : Type 0 where
  pub first_branch : List ℕ
  pub cnonce : List ℕ
  pub second_branch : List ℕ

module _ (rsip : Rsip) (hashing : Hashing) where
  open rsip use {Response, status_code, kind, status_text, www_authenticate, headers}
  open hashing use {hex_encode}

  unfoldable pub new : SipConfig → Text → ℕ → List ℕ → List ℕ → Registration
  new config ip port call_random tag_random = record {
    config = config;
    local_ip = ip;
    local_port = port;
    call_id = hex_encode call_random ++ codes "@mmdvm_sip";
    from_tag = hex_encode tag_random;
    cseq = 0;
  }

  unfoldable pub parse_challenge : Response → Result SipError Challenge
  unfolding parse_header
  parse_challenge r = elim (www_authenticate r) [
    | none ↦ err (missing_header (codes "WWW-Authenticate"))
    | some raw ↦ parse_header raw
  ]

  -- `none`: the message is dropped, and the next is waited for.
  abbrev pub final_response : SipMessage Response → Option Response
  final_response request = none
  final_response (response r) = elim (kind r) [ provisional ↦ none | _ ↦ some r ]

  -- Once nothing arrives any more, the wait is in vain.
  unfoldable pub recv_response : List Arrival → Result SipError Response × List Arrival
  unfolding recv
  recv_response [] = (err response_timeout, [])
  recv_response (a ∷ arrivals) =
      let rest = recv_response arrivals in
      elim (recv rsip a) [
        | err e ↦ (err e, arrivals)
        | stuck ↦ (stuck, arrivals)
        | ok message ↦ elim (final_response message) [ none ↦ rest | some r ↦ (ok r, arrivals) ]
      ]

  abbrev pub receive : UdpTransport → Result SipError Response × UdpTransport
  receive t =
      let (reply, arrivals) = recv_response t.arrivals in (reply, record t { arrivals = arrivals })

  abbrev pub rejection : Response → SipError
  rejection r = registration_rejected (status_code r) (status_text r)

  abbrev pub registered : Registration → Response → Registered
  registered reg r = record { expires = unwrap_or (extract_expires (headers r)) reg.config.expires }

  abbrev pub Outcome : Type 0
  Outcome = Result SipError Registered × Registration × UdpTransport

  -- A request that is sent, and the reply to it handed on.
  abbrev pub Continue : Type 0
  Continue = Response → Registration → UdpTransport → Outcome

  abbrev pub take_reply :
      Continue → Registration → Result SipError Response × UdpTransport → Outcome
  take_reply continue reg (err e, t) = (err e, reg, t)
  take_reply continue reg (stuck, t) = (stuck, reg, t)
  take_reply continue reg (ok r, t) = continue r reg t

  abbrev pub await_reply :
      Continue → Registration → Result SipError (Unit {0}) × UdpTransport → Outcome
  await_reply continue reg (err e, t) = (err e, reg, t)
  await_reply continue reg (stuck, t) = (stuck, reg, t)
  await_reply continue reg (ok _, t) = take_reply continue reg (receive t)

  abbrev pub exchange : Text → Continue → Registration → UdpTransport → Outcome
  exchange text continue reg t = await_reply continue reg (send (as_bytes text) t)

  -- The reply to the request with credentials.
  unfoldable pub last_reply : Response → Registration → UdpTransport → Outcome
  last_reply r reg t = elim (kind r) [
    | successful ↦ (ok (registered reg r), reg, t)
    | _ ↦ (err (rejection r), reg, t)
  ]

  abbrev pub auth_of : Registration → Challenge → DigestAlgorithm → DigestAuth
  auth_of reg c algorithm = record {
    username = reg.config.auth_user;
    realm = c.realm;
    password = reg.config.password;
    method = codes "REGISTER";
    uri = codes "sip:" ++ reg.config.domain;
    nonce = c.nonce;
    opaque = c.opaque;
    qop = c.qop;
    algorithm = algorithm;
  }

  unfoldable pub challenge_auth : Response → Registration → Result SipError DigestAuth
  unfolding parse_challenge
  challenge_auth r reg = do
    c ← parse_challenge r
    algorithm ← parse_algorithm c.algorithm
    ok (auth_of reg c algorithm)

  unfoldable pub answer_challenge :
      Random → Result SipError DigestAuth → Registration → UdpTransport → Outcome
  unfolding last_reply build_register
  answer_challenge random (err e) reg t = (err e, reg, t)
  answer_challenge random stuck reg t = (stuck, reg, t)
  answer_challenge random (ok a) reg t =
      let value = to_header_value (compute hashing a random.cnonce) in
      let (text, reg') = build_register reg (hex_encode random.second_branch) (some value) in
      exchange text last_reply reg' t

  unfoldable pub handle_challenge : Random → Response → Registration → UdpTransport → Outcome
  unfolding challenge_auth answer_challenge
  handle_challenge random r reg t = answer_challenge random (challenge_auth r reg) reg t

  -- The reply to the request without credentials.
  unfoldable pub first_reply : Random → Response → Registration → UdpTransport → Outcome
  unfolding handle_challenge
  first_reply random r reg t = elim (kind r) [
    | successful ↦ (ok (registered reg r), reg, t)
    | request_failure ↦
        if status_code r == 401 || status_code r == 407
        then handle_challenge random r reg t
        else (err (rejection r), reg, t)
    | _ ↦ (err (rejection r), reg, t)
  ]

  unfoldable pub perform : Random → Registration → UdpTransport → Outcome
  unfolding first_reply build_register
  perform random reg t =
      let (text, reg') = build_register reg (hex_encode random.first_branch) none in
      exchange text (first_reply random) reg' t
