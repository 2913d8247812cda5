-- ===== src/Sip/Digest.antt =====
-- mmdvm_sip/src/digest_auth.rs: the answer to a digest challenge. The hash and the hexadecimal
-- encoding are those of the crates md5 and hex, and the random bytes are an argument.
pub mod Header
pub mod Accepts
pub mod Lengths
mod Tests
use wjmmmdvm.Base.{
  ℕ, Bool, true, ◌&&◌, ◌||◌, if◌then◌else◌, leb, ◌≡◌, List, [], ◌∷◌, ◌++◌, Option, none, some, All,
}
use wjmmmdvm.Base.Result.{Result, ok, err}
use wjmmmdvm.Base.Text.{
  Text, codes, text_eq, trim, eq_ignore_ascii_case, split, any, join, as_bytes,
}
use wjmmmdvm.Sip.Error.{SipError, unsupported_algorithm}

abbrev pub is_hex_digit : ℕ → Bool
is_hex_digit c = (leb b'0' c && leb c b'9') || (leb b'a' c && leb c b'f')

-- `hex::encode` writes hexadecimal digits.
pub record Hashing : Type 0 where
  pub md5 : List ℕ → List ℕ
  pub hex_encode : List ℕ → Text
  pub hex_encode_digits : (bytes : List ℕ) → All (λ c. is_hex_digit c ≡ true) (hex_encode bytes)

pub data DigestAlgorithm : Type 0 where
  md5 : DigestAlgorithm

unfoldable pub parse_algorithm : Option Text → Result SipError DigestAlgorithm
parse_algorithm none = ok md5
parse_algorithm (some other) =
    if text_eq other (codes "MD5") || text_eq other (codes "md5")
    then ok md5
    else err (unsupported_algorithm other)

pub record DigestAuth : Type 0 where
  pub username : Text
  pub realm : Text
  pub password : Text
  pub method : Text
  pub uri : Text
  pub nonce : Text
  pub opaque : Option Text
  pub qop : Option Text
  pub algorithm : DigestAlgorithm

pub record DigestResponse : Type 0 where
  pub username : Text
  pub realm : Text
  pub nonce : Text
  pub uri : Text
  pub response : Text
  pub algorithm : DigestAlgorithm
  pub opaque : Option Text
  pub qop : Option Text
  pub nc : Option Text
  pub cnonce : Option Text

unfoldable pub qop_includes_auth : Text → Bool
qop_includes_auth qop = any (λ q. eq_ignore_ascii_case (trim q) (codes "auth")) (split b',' qop)

abbrev pub algorithm_token : DigestAlgorithm → Text
algorithm_token md5 = codes "MD5"

-- `if let Some(x) = …`, for the parts of the header.
abbrev pub optional_part : (Text → Text) → Option Text → List Text
optional_part f none = []
optional_part f (some x) = f x ∷ []

unfoldable pub to_header_value : DigestResponse → Text
to_header_value r =
    let parts : List Text =
      (codes "Digest username=\"" ++ r.username ++ codes "\"")
      ∷ (codes "realm=\"" ++ r.realm ++ codes "\"")
      ∷ (codes "nonce=\"" ++ r.nonce ++ codes "\"")
      ∷ (codes "uri=\"" ++ r.uri ++ codes "\"")
      ∷ (codes "response=\"" ++ r.response ++ codes "\"")
      ∷ (codes "algorithm=" ++ algorithm_token r.algorithm)
      ∷ [] in
    let optional : List Text =
      optional_part (λ qop. codes "qop=" ++ qop) r.qop
      ++ optional_part (λ nc. codes "nc=" ++ nc) r.nc
      ++ optional_part (λ cnonce. codes "cnonce=\"" ++ cnonce ++ codes "\"") r.cnonce
      ++ optional_part (λ opaque. codes "opaque=\"" ++ opaque ++ codes "\"") r.opaque in
    join (codes ", ") (parts ++ optional)

abbrev pub colons : List Text → Text
colons parts = join (codes ":") parts

abbrev pub wants_auth : Option Text → Bool
wants_auth none = Bool.false
wants_auth (some qop) = qop_includes_auth qop

abbrev pub auth_if : Option Text → Option Text
auth_if none = none
auth_if (some nc) = some (codes "auth")

module _ (h : Hashing) where
  open h use {hex_encode}

  unfoldable pub md5_hex : List ℕ → Text
  md5_hex input = hex_encode (h.md5 input)

  -- The response with `nc` and `cnonce`, where the quality of protection is `auth`.
  unfoldable pub digest_of : Bool → DigestAuth → List ℕ → Text × Option Text × Option Text
  unfolding md5_hex
  digest_of with_auth a random_bytes =
      let ha1 = md5_hex (as_bytes (colons (a.username ∷ a.realm ∷ a.password ∷ []))) in
      let ha2 = md5_hex (as_bytes (colons (a.method ∷ a.uri ∷ []))) in
      let nc = codes "00000001" in
      let cnonce = hex_encode random_bytes in
      let full = ha1 ∷ a.nonce ∷ nc ∷ cnonce ∷ codes "auth" ∷ ha2 ∷ [] in
      if with_auth
      then (md5_hex (as_bytes (colons full)), some nc, some cnonce)
      else (md5_hex (as_bytes (colons (ha1 ∷ a.nonce ∷ ha2 ∷ []))), none, none)

  unfoldable pub compute : DigestAuth → List ℕ → DigestResponse
  unfolding digest_of
  compute a random_bytes =
      let (response, nc, cnonce) = digest_of (wants_auth a.qop) a random_bytes in
      record {
        username = a.username;
        realm = a.realm;
        nonce = a.nonce;
        uri = a.uri;
        response = response;
        algorithm = a.algorithm;
        opaque = a.opaque;
        qop = auth_if nc;
        nc = nc;
        cnonce = cnonce;
      }
