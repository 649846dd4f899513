-- ===== src/Prelude/Predicates.antt =====
-- Predicates on lists by recursion, which compute to tuples.
use mathlib.Core.Path.{◌≡◌, refl}
use mathlib.Core.Logic.{inl, inr}
use mathlib.Core.List.{List, [], ◌∷◌, ◌++◌}
use mathlib.Core.Bool.{Bool, true, false, ◌&&◌, ◌||◌}
use native.Mathlib.Omega.{arith}
use aocr.Prelude.Lists.{filter}
use aocr.Prelude.Tests.{Bool-cases}

module _ {ℓ κ} {A : Type ℓ} (P : A → Type κ) where
  abbrev pub All : List A → Type κ
  All [] = Unit
  All (x ∷ xs) = P x × All xs

  pub All-append : (xs ys : List A) → All xs → All ys → All (xs ++ ys)
  All-append [] ys h k = k
  All-append (x ∷ xs) ys (p, h) k = (p, All-append xs ys h k)

  pub All-left : (xs ys : List A) → All (xs ++ ys) → All xs
  All-left [] ys h = tt
  All-left (x ∷ xs) ys (p, h) = (p, All-left xs ys h)

  All-right : (xs ys : List A) → All (xs ++ ys) → All ys
  All-right [] ys h = h
  All-right (x ∷ xs) ys (p, h) = All-right xs ys h

  -- What a filter keeps has the property, and its test holds.
  pub All-filter : (q : A → Bool) (xs : List A) → All xs → All (filter q xs)
  unfolding filter
  All-filter q [] h = tt
  All-filter q (x ∷ xs) (p, h) = elim (Bool-cases (q x)) [
    | inl e ↦ rw e (p, All-filter q xs h)
    | inr e ↦ rw e (All-filter q xs h)
  ]

pub All-imp {ℓ κ μ} :
    {A : Type ℓ} {P : A → Type κ} {Q : A → Type μ} (f : (a : A) → P a → Q a) (xs : List A)
    → All P xs
    → All Q xs
All-imp f [] h = tt
All-imp f (x ∷ xs) (p, h) = (f x p, All-imp f xs h)

pub All-filter_test {ℓ} :
    {A : Type ℓ} (q : A → Bool) (xs : List A) → All (λ x. q x ≡ true) (filter q xs)
unfolding filter
All-filter_test q [] = tt
All-filter_test q (x ∷ xs) = elim (Bool-cases (q x)) [
  | inl e ↦ rw e (e, All-filter_test q xs)
  | inr e ↦ rw e (All-filter_test q xs)
]

module _ {ℓ} {A : Type ℓ} where
  unfoldable pub all : (A → Bool) → List A → Bool
  all p [] = true
  all p (x ∷ xs) = p x && all p xs

  unfoldable pub any : (A → Bool) → List A → Bool
  any p [] = false
  any p (x ∷ xs) = p x || any p xs

  pub all→All : (p : A → Bool) (xs : List A) → all p xs ≡ true → All (λ x. p x ≡ true) xs
  unfolding all
  all→All p [] h = tt
  all→All p (x ∷ xs) h = (ground arith, all→All p xs (ground arith))

  pub All→all : (p : A → Bool) (xs : List A) → All (λ x. p x ≡ true) xs → all p xs ≡ true
  unfolding all
  All→all p [] h = refl
  All→all p (x ∷ xs) (e, h) = ground (arith, All→all p xs h)

  any-append : (p : A → Bool) (xs ys : List A) → any p (xs ++ ys) ≡ (any p xs || any p ys)
  unfolding any
  any-append p [] ys = refl
  any-append p (x ∷ xs) ys = ground (arith, any-append p xs ys)

-- An element has the property.
pub data Some {ℓ κ} {A : Type ℓ} (P : A → Type κ) : List A → Type (ℓ ⊔ κ) where
  here : {x : A} {xs : List A} → P x → Some P (x ∷ xs)
  there : {x : A} {xs : List A} → Some P xs → Some P (x ∷ xs)

-- A filter's elements that pass a test are elements of the list that pass both.
pub any-filter→Some {ℓ κ} :
    {A : Type ℓ} {P : A → Type κ} (p q : A → Bool) (xs : List A)
    → ((x : A) → q x ≡ true → p x ≡ true → P x)
    → any p (filter q xs) ≡ true
    → Some P xs
unfolding any filter
any-filter→Some p q [] f h = absurd (cc h)
any-filter→Some p q (x ∷ xs) f h = elim (Bool-cases (q x)) [
  | inr e ↦ there (any-filter→Some p q xs f (rw e at h))
  | inl e ↦ elim (Bool-cases (p x)) [
    | inl g ↦ here (f x e g)
    | inr g ↦ there (any-filter→Some p q xs f (ground (arith, h, e, g)))
  ]
]
