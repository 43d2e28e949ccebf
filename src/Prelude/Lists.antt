-- ===== src/Prelude/Lists.antt =====
-- Lists measured and cut by native numbers, under the library's names.
use Prim.Native.Nat.{ℕ, zero, suc, ◌+◌, ◌≤◌, min}
use mathlib.Core.Path.{◌≡◌, refl, ap, subst}
use mathlib.Core.List.{List, [], ◌∷◌, ◌++◌, map}
use mathlib.Core.Logic.{◌⊎◌, inl, inr}
use mathlib.Core.Bool.{Bool, true, false, ◌&&◌, ◌||◌}
use mathlib.Core.Option.{Option, none, some}
use native.Mathlib.Omega.{arith}

module _ {ℓ} {A : Type ℓ} where
  abbrev pub length : List A → ℕ
  length [] = 0
  length (x ∷ xs) = suc (length xs)

  abbrev pub get_elem? : List A → ℕ → Option A
  get_elem? [] i = none
  get_elem? (x ∷ xs) zero = some x
  get_elem? (x ∷ xs) (suc i) = get_elem? xs i

  abbrev pub take : ℕ → List A → List A
  take zero xs = []
  take (suc n) [] = []
  take (suc n) (x ∷ xs) = x ∷ take n xs

  abbrev pub drop : ℕ → List A → List A
  drop zero xs = xs
  drop (suc n) [] = []
  drop (suc n) (x ∷ xs) = drop n xs

  -- xs[xs.length - 1]
  abbrev pub last? : List A → Option A
  last? [] = none
  last? (x ∷ []) = some x
  last? (x ∷ y ∷ ys) = last? (y ∷ ys)

  abbrev keep_first : A → Option (A × List A) → Option (A × List A)
  keep_first x none = none
  keep_first x (some (y, ys)) = some (y, x ∷ ys)

  -- The element at a place, and the others.
  abbrev pub pick : ℕ → List A → Option (A × List A)
  pick i [] = none
  pick zero (x ∷ xs) = some (x, xs)
  pick (suc i) (x ∷ xs) = keep_first x (pick i xs)

  abbrev pub all : (A → Bool) → List A → Bool
  all p [] = true
  all p (x ∷ xs) = p x && all p xs

  abbrev pub any : (A → Bool) → List A → Bool
  any p [] = false
  any p (x ∷ xs) = p x || any p xs

  abbrev pub All {κ} : (A → Type κ) → List A → Type κ
  All P [] = Unit
  All P (x ∷ xs) = P x × All P xs

  pub length-append : (xs ys : List A) → length (xs ++ ys) ≡ length xs + length ys
  length-append [] ys = omega arith
  length-append (x ∷ xs) ys = omega (arith, length-append xs ys)

  pub length-take : (n : ℕ) (xs : List A) → length (take n xs) ≡ min n (length xs)
  length-take zero xs = omega arith
  length-take (suc n) [] = omega arith
  length-take (suc n) (x ∷ xs) = omega (arith, length-take n xs)

  pub length-take-le : (n : ℕ) (xs : List A) → length (take n xs) ≤ n
  length-take-le zero xs = omega arith
  length-take-le (suc n) [] = omega arith
  length-take-le (suc n) (x ∷ xs) = omega (arith, length-take-le n xs)

  pub take-of_le : (n : ℕ) (xs : List A) → length xs ≤ n → take n xs ≡ xs
  take-of_le zero [] h = refl
  take-of_le zero (x ∷ xs) h = absurd (omega arith)
  take-of_le (suc n) [] h = refl
  take-of_le (suc n) (x ∷ xs) h = ap (λ t. x ∷ t) (take-of_le n xs (omega arith))

  pub last?-append : (xs : List A) (x : A) → last? (xs ++ x ∷ []) ≡ some x
  last?-append [] x = refl
  last?-append (y ∷ []) x = refl
  last?-append (y ∷ z ∷ zs) x = last?-append (z ∷ zs) x

  pub pick-cases :
      (i : ℕ) (xs : List A)
      → (pick i xs ≡ none) ⊎ ((y : A) × (ys : List A) × (pick i xs ≡ some (y, ys)))
  pick-cases i xs = go (pick i xs) refl
    where
      go :
          (o : Option (A × List A))
          → pick i xs ≡ o
          → (pick i xs ≡ none) ⊎ ((y : A) × (ys : List A) × (pick i xs ≡ some (y, ys)))
      go none e = inl e
      go (some (y, ys)) e = inr (y, ys, e)

  pub length-pick :
      (i : ℕ) (xs : List A) (y : A) (ys : List A)
      → pick i xs ≡ some (y, ys)
      → length xs ≡ suc (length ys)
  length-pick i [] y ys h = absurd cc
  length-pick zero (x ∷ xs) y ys h = ground arith
  length-pick (suc i) (x ∷ xs) y ys h = elim (pick-cases i xs) [
    | inl e ↦ absurd (ground arith)
    | inr (z, zs, e) ↦
        let shorter = length-pick i xs z zs e in
        let tail : x ∷ zs ≡ ys = ground arith in ground arith
  ]

module _ {ℓ κ} {A : Type ℓ} where
  pub All-append : (P : A → Type κ) (xs ys : List A) → All P xs → All P ys → All P (xs ++ ys)
  All-append P [] ys h k = k
  All-append P (x ∷ xs) ys (p, h) k = (p, All-append P xs ys h k)

  pub All-pick :
      (P : A → Type κ) (i : ℕ) (xs : List A) (y : A) (ys : List A)
      → All P xs
      → pick i xs ≡ some (y, ys)
      → P y × All P ys
  All-pick P i [] y ys h e = absurd cc
  All-pick P zero (x ∷ xs) y ys (p, h) e =
      let same : x ≡ y = ground arith in
      let tail : xs ≡ ys = ground arith in (subst P same p, subst (All P) tail h)
  All-pick P (suc i) (x ∷ xs) y ys (p, h) e = elim (pick-cases i xs) [
    | inl q ↦ absurd (ground arith)
    | inr (z, zs, q) ↦
        let (found, others) = All-pick P i xs z zs h q in
        let same : z ≡ y = ground arith in
        let tail : x ∷ zs ≡ ys = ground arith in
        (subst P same found, subst (All P) tail (p, others))
  ]

pub length-map {ℓ κ} :
    {A : Type ℓ} {B : Type κ} (f : A → B) (xs : List A) → length (map f xs) ≡ length xs
length-map f [] = refl
length-map f (x ∷ xs) = ap suc (length-map f xs)
