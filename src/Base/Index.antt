-- ===== src/Base/Index.antt =====
-- Lists read and written by index.
use wjmmmdvm.Base.Tests.{◌==◌, if◌then◌else◌}
use wjmmmdvm.Base.Lists.{length, take, drop, get_or, set, All, take-append-drop}
use Prim.Native.Nat.{ℕ, zero, suc, ◌+◌, ◌<◌, ◌≤◌}
use mathlib.Core.Path.{◌≡◌, refl, sym, ap, ap₂, ◌∙◌}
use mathlib.Core.List.{List, [], ◌∷◌, ◌++◌}
use native.Mathlib.Omega.{arith}

module _ {ℓ} {A : Type ℓ} where
  pub take-suc :
      (n : ℕ) (xs : List A) (d : A)
      → n < length xs
      → take (suc n) xs ≡ take n xs ++ (get_or xs n d ∷ [])
  take-suc n [] d h = absurd (omega arith)
  take-suc zero (x ∷ xs) d h = refl
  take-suc (suc n) (x ∷ xs) d h = ap (λ t. x ∷ t) (take-suc n xs d (omega arith))

  pub drop-suc :
      (n : ℕ) (xs : List A) (d : A) → n < length xs → drop n xs ≡ get_or xs n d ∷ drop (suc n) xs
  drop-suc n [] d h = absurd (omega arith)
  drop-suc zero (x ∷ xs) d h = refl
  drop-suc (suc n) (x ∷ xs) d h = drop-suc n xs d (omega arith)

  pub drop-set :
      (n : ℕ) (xs : List A) (v : A) → n < length xs → drop n (set xs n v) ≡ v ∷ drop (suc n) xs
  drop-set n [] v h = absurd (omega arith)
  drop-set zero (x ∷ xs) v h = refl
  drop-set (suc n) (x ∷ xs) v h = drop-set n xs v (omega arith)

  pub get_or-drop : (k n : ℕ) (xs : List A) (d : A) → get_or (drop k xs) n d ≡ get_or xs (k + n) d
  get_or-drop zero n xs d = let e : n ≡ 0 + n = omega arith in ap (λ m. get_or xs m d) e
  get_or-drop (suc k) n [] d = refl
  get_or-drop (suc k) n (x ∷ xs) d =
      let e : suc (k + n) ≡ suc k + n = omega arith in
      get_or-drop k n xs d ∙ ap (λ m. get_or (x ∷ xs) m d) e

pub All-get_or {κ} :
    (P : ℕ → Type κ) (xs : List ℕ) (i : ℕ) → All P xs → i < length xs → P (get_or xs i 0)
All-get_or P [] i h k = absurd (omega arith)
All-get_or P (x ∷ xs) zero h k = h.0
All-get_or P (x ∷ xs) (suc i) h k = All-get_or P xs i h.1 (omega arith)

module _ {ℓ} {A : Type ℓ} where
  pub get_or-set :
      (xs : List A) (i j : ℕ) (v d : A)
      → i < length xs
      → get_or (set xs i v) j d ≡ (if j == i then v else get_or xs j d)
  get_or-set [] i j v d h = absurd (omega arith)
  get_or-set (x ∷ xs) zero zero v d h = refl
  get_or-set (x ∷ xs) zero (suc j) v d h = ground arith
  get_or-set (x ∷ xs) (suc i) zero v d h = ground arith
  get_or-set (x ∷ xs) (suc i) (suc j) v d h = ground (arith, get_or-set xs i j v d)

  pub get_or_ext :
      (d : A) (xs ys : List A)
      → length xs ≡ length ys
      → ((i : ℕ) → i < length xs → get_or xs i d ≡ get_or ys i d)
      → xs ≡ ys
  get_or_ext d [] [] e h = refl
  get_or_ext d [] (y ∷ ys) e h = absurd (omega arith)
  get_or_ext d (x ∷ xs) [] e h = absurd (omega arith)
  get_or_ext d (x ∷ xs) (y ∷ ys) e h =
      ap₂ ◌∷◌ (h 0 (omega arith))
        (get_or_ext d xs ys (omega arith) (λ i k. h (suc i) (omega arith)))

  pub get_or-append :
      (xs ys : List A) (i : ℕ) (d : A) → i < length xs → get_or (xs ++ ys) i d ≡ get_or xs i d
  get_or-append [] ys i d h = absurd (omega arith)
  get_or-append (x ∷ xs) ys zero d h = refl
  get_or-append (x ∷ xs) ys (suc i) d h = get_or-append xs ys i d (omega arith)

  pub get_or-take : (n i : ℕ) (xs : List A) (d : A) → i < n → get_or (take n xs) i d ≡ get_or xs i d
  get_or-take zero i xs d h = absurd (omega arith)
  get_or-take (suc n) i [] d h = refl
  get_or-take (suc n) zero (x ∷ xs) d h = refl
  get_or-take (suc n) (suc i) (x ∷ xs) d h = get_or-take n i xs d (omega arith)

  pub All-get_or_any {κ} :
      (P : A → Type κ) (xs : List A) (i : ℕ) (d : A) → All P xs → P d → P (get_or xs i d)
  All-get_or_any P [] i d h k = k
  All-get_or_any P (x ∷ xs) zero d h k = h.0
  All-get_or_any P (x ∷ xs) (suc i) d h k = All-get_or_any P xs i d h.1 k

module _ {ℓ} {A : Type ℓ} where
  -- Past the end of the first list.
  pub drop-past : (xs ys : List A) (n m : ℕ) → n ≡ length xs + m → drop n (xs ++ ys) ≡ drop m ys
  drop-past [] ys n m e = let k : n ≡ m = omega arith in ap (λ i. drop i ys) k
  drop-past (x ∷ xs) ys zero m e = absurd (omega arith)
  drop-past (x ∷ xs) ys (suc n) m e = drop-past xs ys n m (omega arith)

  pub get_or-past :
      (xs ys : List A) (n m : ℕ) (d : A) → n ≡ length xs + m → get_or (xs ++ ys) n d ≡ get_or ys m d
  get_or-past [] ys n m d e = let k : n ≡ m = omega arith in ap (λ i. get_or ys i d) k
  get_or-past (x ∷ xs) ys zero m d e = absurd (omega arith)
  get_or-past (x ∷ xs) ys (suc n) m d e = get_or-past xs ys n m d (omega arith)

module _ {ℓ} {A : Type ℓ} where
  -- A run of `k` elements from index `n`.
  pub segment : (n k m : ℕ) (xs : List A) → m ≡ n + k → take k (drop n xs) ++ drop m xs ≡ drop n xs
  segment zero k m xs e =
      let h : m ≡ k = omega arith in ap (λ i. take k xs ++ drop i xs) h ∙ take-append-drop k xs
  segment (suc n) zero zero xs e = absurd (omega arith)
  segment (suc n) k zero xs e = absurd (omega arith)
  segment (suc n) zero (suc m) [] e = refl
  segment (suc n) (suc k) (suc m) [] e = refl
  segment (suc n) k (suc m) (x ∷ xs) e = segment n k m xs (omega arith)

-- The elements of a list, read by index.
unfoldable pub elements : ℕ → ℕ → List ℕ → List ℕ
elements zero i row = []
elements (suc n) i row = get_or row i 0 ∷ elements n (suc i) row

pub elements_lem :
    (n i : ℕ) (row : List ℕ) → i + n ≤ length row → elements n i row ≡ take n (drop i row)
unfolding elements
elements_lem zero i row h = refl
elements_lem (suc n) i row h =
    ap (λ t. get_or row i 0 ∷ t) (elements_lem n (suc i) row (omega arith))
    ∙ sym (ap (take (suc n)) (drop-suc i row 0 (omega arith)))

pub length-elements : (n i : ℕ) (row : List ℕ) → length (elements n i row) ≡ n
unfolding elements
length-elements zero i row = refl
length-elements (suc n) i row = ap suc (length-elements n (suc i) row)

pub All-elements {κ} :
    (P : ℕ → Type κ) (n i : ℕ) (row : List ℕ)
    → ((j : ℕ) → P (get_or row j 0))
    → All P (elements n i row)
unfolding elements
All-elements P zero i row h = tt
All-elements P (suc n) i row h = (h i, All-elements P n (suc i) row h)
