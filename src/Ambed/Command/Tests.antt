-- ===== src/Ambed/Command/Tests.antt =====
-- The commands at concrete inputs.
use wjmmmdvm.Base.{ℕ, ◌≡◌, refl, List, [], ◌∷◌, drop, length, replicate, none, some}
use wjmmmdvm.Base.Text.{codes, trim, eq_ignore_ascii_case}
use wjmmmdvm.Ambed.Codec.Sample.{firmware, zeros}
use wjmmmdvm.Ambed.Command.{samples_of_le, run_encode, parse_optional}
use wjmmmdvm.Ambed.Command.WarmUp.{run_encode-drop}

-- Three frames and a half.
abbrev raw : List ℕ
raw = replicate 1120 1

run_encode-drop_example :
    (run_encode firmware 2 raw zeros ≡ drop 16 (run_encode firmware 0 raw zeros))
    × (length (run_encode firmware 2 raw zeros) ≡ 8)
run_encode-drop_example = run_encode-drop firmware 2 raw zeros

odd_bytes : samples_of_le (1 ∷ 2 ∷ 3 ∷ []) ≡ 513 ∷ []
unfolding samples_of_le
odd_bytes = refl

disabled : parse_optional (codes " None ") ≡ none
unfolding parse_optional trim eq_ignore_ascii_case
disabled = refl

enabled : parse_optional (codes "[::]:2460 ") ≡ some (codes "[::]:2460")
unfolding parse_optional trim eq_ignore_ascii_case
enabled = refl
