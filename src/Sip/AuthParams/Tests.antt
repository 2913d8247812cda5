-- ===== src/Sip/AuthParams/Tests.antt =====
-- Runs of `parse_params`, and its theorems at concrete texts.
use wjmmmdvm.Base.{◌≡◌, refl, List, [], ◌∷◌, map, true, false, some}
use wjmmmdvm.Base.Text.{codes, join, lower, to_ascii_lowercase, trim, is_whitespace}
use wjmmmdvm.Sip.AuthParams.{Param, is_quoted_byte, parse_params}
use wjmmmdvm.Sip.AuthParams.Ends.{parse_params_total}
use wjmmmdvm.Sip.AuthParams.Written.{
  Written, print, param_of, IsWritten, quoted, bare, field, all-Passes, bare_text,
}
use wjmmmdvm.Sip.AuthParams.RoundTrip.{parse_params-print}

-- The source's own test.
quoted_and_unquoted :
    parse_params (codes "realm=\"asterisk\", nonce=\"abc123\", algorithm=MD5, qop=\"auth\"")
    ≡ some (
        (codes "realm", codes "asterisk")
        ∷ (codes "nonce", codes "abc123")
        ∷ (codes "algorithm", codes "MD5")
        ∷ (codes "qop", codes "auth")
        ∷ [])
unfolding parse_params to_ascii_lowercase trim
quoted_and_unquoted = refl

-- A name without a value is dropped, and a quote that is not closed ends with the text.
odd_input : parse_params (codes " stale , Realm = \"a,b") ≡ some ((codes "realm", codes "a,b") ∷ [])
unfolding parse_params to_ascii_lowercase trim
odd_input = refl

parse_params_total_example : (ps : List Param) × (parse_params (codes "a=,==\"") ≡ some ps)
parse_params_total_example = parse_params_total (codes "a=,==\"")

abbrev realm : Written
realm = quoted (codes "realm") (codes "a, b=c")

realm-IsWritten : IsWritten realm
unfolding lower is_whitespace
realm-IsWritten = field _ _ _ true refl (all-Passes is_quoted_byte (codes "a, b=c") refl)

abbrev algorithm : Written
algorithm = bare (codes "alg") (codes "MD5")

algorithm-IsWritten : IsWritten algorithm
unfolding lower is_whitespace
algorithm-IsWritten = field _ _ _ false refl (bare_text (codes "MD5") refl)

parse_params-print_example :
    parse_params (join (codes ", ") (map print (realm ∷ algorithm ∷ [])))
    ≡ some (map param_of (realm ∷ algorithm ∷ []))
parse_params-print_example =
    parse_params-print realm (algorithm ∷ []) realm-IsWritten (algorithm-IsWritten, tt)
