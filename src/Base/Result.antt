-- ===== src/Base/Result.antt =====
-- The result of fallible code. `stuck` is no value of the program: a loop of the model ran out of
-- fuel, and the theorems show where that cannot happen.
use mathlib.Core.Path.{◌≡◌, refl}
use mathlib.Core.Option.{Option, none, some}

pub data Result {ℓ} (E : Type 0) (A : Type ℓ) : Type ℓ where
  ok : A → Result E A
  err : E → Result E A
  stuck : Result E A

infixl 5 ◌>>=◌
abbrev pub ◌>>=◌ {ℓ κ} :
    {E : Type 0} {A : Type ℓ} {B : Type κ} → Result E A → (A → Result E B) → Result E B
ok a >>= f = f a
err e >>= f = err e
stuck >>= f = stuck

-- `?` on a result with another error type, as `From` converts it.
abbrev pub map_err {ℓ} : {E F : Type 0} {A : Type ℓ} → (E → F) → Result E A → Result F A
map_err f (ok a) = ok a
map_err f (err e) = err (f e)
map_err f stuck = stuck

abbrev pub ok_or {ℓ} : {E : Type 0} {A : Type ℓ} → Option A → E → Result E A
ok_or none e = err e
ok_or (some a) e = ok a

-- The predicate holds of a successful result.
abbrev pub OnOk {ℓ} : {E : Type 0} {A : Type ℓ} → (A → Type 0) → Result E A → Type 0
OnOk P (ok a) = P a
OnOk P (err e) = Unit {0}
OnOk P stuck = Unit {0}

pub ok_injective {ℓ} :
    {E : Type 0} {A : Type ℓ} {a b : A} → ◌≡◌ {A = Result E A} (ok a) (ok b) → a ≡ b
ok_injective h = cc

-- The code comes back, with an error or with a value of which the predicate holds.
abbrev pub EndsIn {ℓ} : {E : Type 0} {A : Type ℓ} → (A → Type 0) → Result E A → Type 0
EndsIn P (ok a) = P a
EndsIn P (err e) = Unit {0}
EndsIn P stuck = ⊥

pub >>=-EndsIn {ℓ κ} :
    {E : Type 0} {A : Type ℓ} {B : Type κ} (P : A → Type 0) (Q : B → Type 0) (m : Result E A)
    (f : A → Result E B)
    → EndsIn P m
    → ((a : A) → P a → EndsIn Q (f a))
    → EndsIn Q (m >>= f)
>>=-EndsIn P Q (ok a) f h k = k a h
>>=-EndsIn P Q (err e) f h k = tt
>>=-EndsIn P Q stuck f h k = absurd h

pub map_err-EndsIn {ℓ} :
    {E F : Type 0} {A : Type ℓ} (P : A → Type 0) (f : E → F) (m : Result E A)
    → EndsIn P m
    → EndsIn P (map_err f m)
map_err-EndsIn P f (ok a) h = h
map_err-EndsIn P f (err e) h = tt
map_err-EndsIn P f stuck h = h

-- A result that comes back, where its value is known to have the property.
pub Returns-EndsIn {ℓ} :
    {E : Type 0} {A : Type ℓ} (P : A → Type 0) (m : Result E A)
    → EndsIn (λ a. Unit {0}) m
    → ((a : A) → m ≡ ok a → P a)
    → EndsIn P m
Returns-EndsIn P (ok a) h k = k a refl
Returns-EndsIn P (err e) h k = tt
Returns-EndsIn P stuck h k = h

-- The code comes back, with a value or an error.
abbrev pub Returns {ℓ} : {E : Type 0} {A : Type ℓ} → Result E A → Type 0
Returns r = EndsIn (λ a. Unit {0}) r

pub >>=-Returns {ℓ κ} :
    {E : Type 0} {A : Type ℓ} {B : Type κ} (m : Result E A) (f : A → Result E B)
    → Returns m
    → ((a : A) → Returns (f a))
    → Returns (m >>= f)
>>=-Returns (ok a) f h k = k a
>>=-Returns (err e) f h k = tt
>>=-Returns stuck f h k = h

pub ok_or-Returns {ℓ} : {E : Type 0} {A : Type ℓ} (o : Option A) (e : E) → Returns (ok_or o e)
ok_or-Returns none e = tt
ok_or-Returns (some a) e = tt
