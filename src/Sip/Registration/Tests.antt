-- ===== src/Sip/Registration/Tests.antt =====
-- The registration's theorems with the server of the sample.
use wjmmmdvm.Base.{◌≡◌, refl, inl, [], ◌∷◌, ◌++◌, none, if◌then◌else◌}
use wjmmmdvm.Base.Result.{ok, err}
use wjmmmdvm.Base.Text.{Text, codes, lower, is_whitespace}
use wjmmmdvm.Sip.AuthParams.{is_quoted_byte}
use wjmmmdvm.Sip.AuthParams.Written.{all-Passes, bare_text, IsKey-text}
use wjmmmdvm.Sip.Digest.Lengths.{hashing}
use wjmmmdvm.Sip.Digest.{parse_algorithm}
use wjmmmdvm.Sip.Transport.{successful, request, response, contact, silence, recv}
use wjmmmdvm.Sip.Registration.{
  next_cseq, registered, rejection, parse_challenge, extract_expires, perform,
}
use wjmmmdvm.Sip.Registration.Sample.{
  server_challenge, rsip, account, random, trying, unauthorized, asked, accepted, transport,
}
use wjmmmdvm.Sip.Registration.Printed.{IsPrintable, parse_challenge-text}
use wjmmmdvm.Sip.Registration.Contact.{extract_expires_contact}
use wjmmmdvm.Sip.Registration.Requests.{Within, perform-Within}
use wjmmmdvm.Sip.Registration.Registers.{
  IsAccepted, is_successful, registered_over, perform_registers,
}

server_challenge-IsPrintable : IsPrintable server_challenge
unfolding is_whitespace
server_challenge-IsPrintable = record {
  realm_ok = all-Passes is_quoted_byte (codes "asterisk") refl;
  nonce_ok = all-Passes is_quoted_byte (codes "abc") refl;
  opaque_ok = tt;
  qop_ok = all-Passes is_quoted_byte (codes "auth") refl;
  algorithm_ok = bare_text (codes "MD5") refl;
}

parse_challenge-text_example : parse_challenge rsip hashing 401 ≡ ok server_challenge
parse_challenge-text_example =
    parse_challenge-text rsip hashing 401 server_challenge refl server_challenge-IsPrintable

perform_registers_example :
    (header : Text) × (perform rsip hashing random account transport ≡ (
      if is_successful successful
          then ok (registered rsip hashing (next_cseq (next_cseq account)) 200)
          else err (rejection rsip hashing 200),
      next_cseq (next_cseq account),
      registered_over rsip hashing random account (silence ∷ []) transport header,
    ))
    × IsAccepted rsip hashing account server_challenge header
unfolding recv parse_algorithm
perform_registers_example =
    perform_registers rsip hashing random account transport server_challenge (trying ∷ [])
      (asked ∷ []) (silence ∷ []) unauthorized accepted 401 200 refl refl
      ((response 100, refl, refl), tt) ((request, refl, refl), tt) refl refl (inl refl) refl
      server_challenge-IsPrintable refl (all-Passes is_quoted_byte (codes "mm") refl)
      (all-Passes is_quoted_byte (codes "pbx") refl) refl refl

perform-Within_example :
    Within rsip hashing 1 2 0 account transport (perform rsip hashing random account transport)
perform-Within_example = perform-Within rsip hashing random account transport

-- `Contact: <sip:mm@pbx>;expires=60`.
extract_expires_contact_example :
    extract_expires (contact (codes "<sip:mm@pbx>" ++ codes ";expires=" ++ codes "60") ∷ []) ≡ none
unfolding is_whitespace lower
extract_expires_contact_example =
    extract_expires_contact b'<' (codes "sip:mm@pbx>") (codes "60")
      (IsKey-text b'<' (codes "sip:mm@pbx>") refl) (bare_text (codes "60") refl)
