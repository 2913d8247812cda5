-- ===== src/Sip/Digest/Tests.antt =====
-- The digest's theorem at a concrete account.
use wjmmmdvm.Base.{◌≡◌, refl, true, List, [], ◌∷◌, none, some, if◌then◌else◌}
use wjmmmdvm.Base.Text.{Text, codes, split, eq_ignore_ascii_case, trim, strip_prefix, trim_start}
use wjmmmdvm.Sip.AuthParams.{Param, is_quoted_byte, parse_params}
use wjmmmdvm.Sip.Digest.{
  DigestAlgorithm, DigestAuth, qop_includes_auth, wants_auth, compute, to_header_value,
}
use wjmmmdvm.Sip.AuthParams.Written.{all-Passes}
use wjmmmdvm.Sip.Digest.Lengths.{hashing}
use wjmmmdvm.Sip.Digest.Accepts.{find, server_accepts, IsSayable, header_accepted}

qop_list : qop_includes_auth (codes "auth-int, AUTH ") ≡ true
unfolding qop_includes_auth split eq_ignore_ascii_case trim
qop_list = refl

abbrev account : DigestAuth
account = record {
  username = codes "mmdvm";
  realm = codes "asterisk";
  password = codes "secret";
  method = codes "REGISTER";
  uri = codes "sip:pbx";
  nonce = codes "abc123";
  opaque = some (codes "o");
  qop = some (codes "auth-int,auth");
  algorithm = DigestAlgorithm.md5;
}

account-IsSayable : IsSayable account
account-IsSayable = record {
  username_ok = all-Passes is_quoted_byte (codes "mmdvm") refl;
  realm_ok = all-Passes is_quoted_byte (codes "asterisk") refl;
  nonce_ok = all-Passes is_quoted_byte (codes "abc123") refl;
  uri_ok = all-Passes is_quoted_byte (codes "sip:pbx") refl;
  opaque_ok = all-Passes is_quoted_byte (codes "o") refl;
}

header_accepted_example :
    (s : Text) × (ps : List Param) × (strip_prefix
        (codes "Digest")
        (to_header_value (compute hashing account (1 ∷ 2 ∷ [])))
      ≡ some s)
    × (parse_params (trim_start s) ≡ some ps)
    × (server_accepts hashing (codes "secret") (codes "REGISTER") ps ≡ true)
    × (find (codes "qop") ps ≡ (if wants_auth account.qop then some (codes "auth") else none))
    × (find (codes "opaque") ps ≡ some (codes "o"))
header_accepted_example = header_accepted hashing account (1 ∷ 2 ∷ []) account-IsSayable
