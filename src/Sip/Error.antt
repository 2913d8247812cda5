-- ===== src/Sip/Error.antt =====
-- mmdvm_sip/src/error.rs: the errors of the SIP account. An error of the TOML parser is its message.
use wjmmmdvm.Base.{ℕ}
use wjmmmdvm.Base.Io.{IoError}
use wjmmmdvm.Base.Text.{Text}

pub data SipError : Type 0 where
  config_not_found : Text → SipError
  config_parse : Text → SipError
  io : IoError → SipError
  sip_parse : Text → SipError
  missing_header : Text → SipError
  unexpected_response : ℕ → SipError
  auth_required_but_missing : SipError
  unsupported_algorithm : Text → SipError
  registration_rejected : ℕ → Text → SipError
  response_timeout : SipError
