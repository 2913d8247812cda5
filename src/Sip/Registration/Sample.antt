-- ===== src/Sip/Registration/Sample.antt =====
-- A server whose messages are two bytes, the status code, or a request of one byte, and an account:
-- tests run with them.
use wjmmmdvm.Base.{ℕ, ◌+◌, ◌*◌, ◌/◌, ◌⊎◌, inl, inr, List, [], ◌∷◌, none, some, if◌then◌else◌, ◌==◌}
use wjmmmdvm.Base.Text.{Text, codes}
use wjmmmdvm.Sip.Transport.{
  provisional, successful, request_failure, global_failure, SipMessage, request, response, expires,
  Rsip, Arrival, datagram, silence, UdpTransport,
}
use wjmmmdvm.Sip.Registration.{SipConfig, Registration, Challenge, Random}
use wjmmmdvm.Sip.Registration.Printed.{challenge_text}

abbrev pub server_challenge : Challenge
server_challenge = record {
  realm = codes "asterisk";
  nonce = codes "abc";
  opaque = none;
  qop = some (codes "auth");
  algorithm = some (codes "MD5");
}

abbrev pub message : List ℕ → Text ⊎ SipMessage ℕ
message [] = inl (codes "empty")
message (a ∷ []) = inr request
message (a ∷ b ∷ rest) = inr (response (a * 256 + b))

abbrev pub rsip : Rsip
rsip = record {
  Response = ℕ;
  parse_message = message;
  status_code = λ code. code;
  kind = λ code.
      if code / 100 == 1
      then provisional
      else if code / 100 == 2
      then successful
      else if code / 100 == 4
      then request_failure
      else global_failure;
  status_text = λ code. codes "no";
  www_authenticate = λ code. if code == 401 then some (challenge_text server_challenge) else none;
  headers = λ code. expires (some 120) ∷ [];
}

abbrev pub config : SipConfig
config = record {
  server = codes "pbx";
  server_port = 5060;
  domain = codes "pbx";
  user = codes "mm";
  auth_user = codes "mm";
  password = codes "pw";
  local_port = 0;
  expires = 3600;
  user_agent = codes "ua";
}

abbrev pub account : Registration
account = record {
  config = config;
  local_ip = codes "10.0.0.1";
  local_port = 5062;
  call_id = codes "id";
  from_tag = codes "tag";
  cseq = 4;
}

abbrev pub random : Random
random = record { first_branch = 1 ∷ []; cnonce = 2 ∷ []; second_branch = 3 ∷ [] }

-- Trying (100), then 401; a request, then 200 OK.
abbrev pub trying : Arrival
trying = datagram (0 ∷ 100 ∷ [])

abbrev pub unauthorized : Arrival
unauthorized = datagram (1 ∷ 145 ∷ [])

abbrev pub asked : Arrival
asked = datagram (7 ∷ [])

abbrev pub accepted : Arrival
accepted = datagram (0 ∷ 200 ∷ [])

abbrev pub transport : UdpTransport
transport = record {
  arrivals = trying ∷ unauthorized ∷ asked ∷ accepted ∷ silence ∷ [];
  refusals = [];
  sent = [];
}
