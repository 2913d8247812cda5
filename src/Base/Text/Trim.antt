-- ===== src/Base/Text/Trim.antt =====
-- Trimming a text that has no space in it.
use Prim.Native.Nat.{ℕ}
use mathlib.Core.Bool.{false}
use mathlib.Core.List.{[], ◌∷◌}
use mathlib.Core.Path.{◌≡◌, refl, ap, ◌∙◌}
use wjmmmdvm.Base.Lists.{All}
use wjmmmdvm.Base.Text.{Text, is_whitespace, trim_start, trim_end, trim, keep_end}

abbrev pub IsDense : Text → Type 0
IsDense s = All (λ c. is_whitespace c ≡ false) s

keep_end-dense : (c : ℕ) (s : Text) → is_whitespace c ≡ false → keep_end c s ≡ c ∷ s
keep_end-dense c [] h = rw h refl
keep_end-dense c (d ∷ s) h = refl

trim_end-dense : (s : Text) → IsDense s → trim_end s ≡ s
unfolding trim_end
trim_end-dense [] h = refl
trim_end-dense (c ∷ s) h = ap (keep_end c) (trim_end-dense s h.1) ∙ keep_end-dense c s h.0

pub trim_start-stop : (s : Text) → (c : ℕ) → is_whitespace c ≡ false → trim_start (c ∷ s) ≡ c ∷ s
unfolding trim_start
trim_start-stop s c h = rw h refl

trim_start-dense : (s : Text) → IsDense s → trim_start s ≡ s
unfolding trim_start
trim_start-dense [] h = refl
trim_start-dense (c ∷ s) h = rw h.0 refl

pub trim-dense : (s : Text) → IsDense s → trim s ≡ s
unfolding trim
trim-dense s h = ap trim_end (trim_start-dense s h) ∙ trim_end-dense s h
