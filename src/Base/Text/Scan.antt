-- ===== src/Base/Text/Scan.antt =====
-- Scanning a text up to the first character that a test refuses.
use Prim.Native.Nat.{ℕ, ◌≤◌}
use mathlib.Core.Bool.{Bool, true, false}
use mathlib.Core.List.{[], ◌∷◌, ◌++◌}
use mathlib.Core.Path.{◌≡◌, refl, ap}
use mathlib.Core.Logic.{inl, inr}
use native.Mathlib.Omega.{arith}
use wjmmmdvm.Base.Tests.{Bool-cases}
use wjmmmdvm.Base.Lists.{length, All}
use wjmmmdvm.Base.Text.{Text, take_while, drop_while}

abbrev pub Passes : (ℕ → Bool) → Text → Type 0
Passes p s = All (λ c. p c ≡ true) s

-- The test refuses the first character, if there is one.
abbrev pub Stops : (ℕ → Bool) → Text → Type 0
Stops p [] = Unit {0}
Stops p (c ∷ s) = p c ≡ false

module _ (p : ℕ → Bool) where
  pub take_while_stop : (s : Text) → Stops p s → take_while p s ≡ []
  take_while_stop [] h = refl
  take_while_stop (c ∷ s) h = rw h refl

  pub drop_while_stop : (s : Text) → Stops p s → drop_while p s ≡ s
  drop_while_stop [] h = refl
  drop_while_stop (c ∷ s) h = rw h refl

  pub take_while-append : (s t : Text) → Passes p s → Stops p t → take_while p (s ++ t) ≡ s
  take_while-append [] t h k = take_while_stop t k
  take_while-append (c ∷ s) t h k = rw h.0 (ap (λ r. c ∷ r) (take_while-append s t h.1 k))

  pub drop_while-append : (s t : Text) → Passes p s → Stops p t → drop_while p (s ++ t) ≡ t
  drop_while-append [] t h k = drop_while_stop t k
  drop_while-append (c ∷ s) t h k = rw h.0 (drop_while-append s t h.1 k)

  pub length-drop_while-le : (s : Text) → length (drop_while p s) ≤ length s
  length-drop_while-le [] = omega arith
  length-drop_while-le (c ∷ s) = ground (arith, length-drop_while-le s)

  pub drop_while-Stops : (s : Text) → Stops p (drop_while p s)
  drop_while-Stops [] = tt
  drop_while-Stops (c ∷ s) = elim (Bool-cases (p c)) [
    | inl e ↦ rw e (drop_while-Stops s)
    | inr e ↦ rw e e
  ]
