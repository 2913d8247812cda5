-- ===== src/Sip/Transport.antt =====
-- mmdvm_sip/src/udp_transport.rs over a socket that is told by what arrives on it and by its answer
-- to each datagram sent; and the SIP parser, rsip, which is a parameter.
use wjmmmdvm.Base.{ℕ, List, [], ◌∷◌, ◌++◌, Option, none, some, take, ◌⊎◌, inl, inr}
use wjmmmdvm.Base.Result.{Result, ok, err}
use wjmmmdvm.Base.Io.{IoError}
use wjmmmdvm.Base.Text.{Text}
use wjmmmdvm.Sip.Error.{SipError, io, sip_parse, response_timeout}

pub data StatusCodeKind : Type 0 where
  provisional : StatusCodeKind
  successful : StatusCodeKind
  redirection : StatusCodeKind
  request_failure : StatusCodeKind
  server_failure : StatusCodeKind
  global_failure : StatusCodeKind

pub data SipMessage (R : Type 0) : Type 0 where
  request : SipMessage R
  response : R → SipMessage R

-- A header as the code matches it: `Expires` with the outcome of `seconds`, `Contact` with its value.
pub data Header : Type 0 where
  expires : Option ℕ → Header
  contact : Text → Header
  other : Header

pub record Rsip : Type 1 where
  pub Response : Type 0
  -- `SipMessage::try_from`, with the text of its error.
  pub parse_message : List ℕ → Text ⊎ SipMessage Response
  pub status_code : Response → ℕ
  pub kind : Response → StatusCodeKind
  pub status_text : Response → Text
  pub www_authenticate : Response → Option Text
  pub headers : Response → List Header

-- `silence`: the wait is over before the next datagram.
pub data Arrival : Type 0 where
  datagram : List ℕ → Arrival
  receive_error : IoError → Arrival
  silence : Arrival

-- `refusals`: the error of each datagram to be sent, if it meets one; then there are none.
pub record UdpTransport : Type 0 where
  pub arrivals : List Arrival
  pub refusals : List (Option IoError)
  pub sent : List (List ℕ)

abbrev pub send_to :
    List ℕ → List (Option IoError) → UdpTransport → Result SipError (Unit {0}) × UdpTransport
send_to bytes [] t = (ok tt, record t { sent = t.sent ++ (bytes ∷ []) })
send_to bytes (none ∷ rest) t = (ok tt, record t { refusals = rest; sent = t.sent ++ (bytes ∷ []) })
send_to bytes (some e ∷ rest) t = (err (io e), record t { refusals = rest })

abbrev pub send : List ℕ → UdpTransport → Result SipError (Unit {0}) × UdpTransport
send bytes t = send_to bytes t.refusals t

abbrev pub parsed : {A : Type 0} → Text ⊎ A → Result SipError A
parsed (inl why) = err (sip_parse why)
parsed (inr a) = ok a

module _ (rsip : Rsip) where
  open rsip use {Response, parse_message}

  -- The buffer holds 4096 bytes, and the rest of a longer datagram is lost.
  unfoldable pub recv : Arrival → Result SipError (SipMessage Response)
  recv silence = err response_timeout
  recv (receive_error e) = err (io e)
  recv (datagram bytes) = parsed (parse_message (take 4096 bytes))
