-- ===== src/Prelude/Pairwise.antt =====
-- Predicates on all elements of a list and on all pairs, and what keeps them.
use mathlib.Core.Path.{◌≡◌}
use mathlib.Core.Logic.{inl, inr}
use mathlib.Core.Bool.{Bool, true, false}
use mathlib.Core.List.{List, [], ◌∷◌, ◌++◌, map}
use native.Mathlib.Omega.{arith}
use icyre.Prelude.Tests.{Bool-cases}
use icyre.Prelude.Lists.{All, filter, any}

module _ {ℓ κ} {A : Type ℓ} (P : A → Type κ) where
  pub All-append : (xs ys : List A) → All P xs → All P ys → All P (xs ++ ys)
  All-append [] ys h k = k
  All-append (x ∷ xs) ys h k = (h.0, All-append xs ys h.1 k)

  pub All-filter : (p : A → Bool) (xs : List A) → All P xs → All P (filter p xs)
  All-filter p [] h = tt
  All-filter p (x ∷ xs) h = elim (Bool-cases (p x)) [
    | inl e ↦ rw e (h.0, All-filter p xs h.1)
    | inr e ↦ rw e (All-filter p xs h.1)
  ]

  -- A filter's rows also pass its test.
  pub All-filter_test :
      (p : A → Bool) (xs : List A) → ((x : A) → p x ≡ true → P x) → All P (filter p xs)
  All-filter_test p [] k = tt
  All-filter_test p (x ∷ xs) k = elim (Bool-cases (p x)) [
    | inl e ↦ rw e (k x e, All-filter_test p xs k)
    | inr e ↦ rw e (All-filter_test p xs k)
  ]

  -- An element found by a test has the property.
  pub All-any_false :
      (p : A → Bool) (xs : List A) → ((x : A) → p x ≡ false → P x) → any p xs ≡ false → All P xs
  All-any_false p [] k h = tt
  All-any_false p (x ∷ xs) k h = (k x (ground arith), All-any_false p xs k (ground arith))

module _ {ℓ κ κ'} {A : Type ℓ} {P : A → Type κ} {Q : A → Type κ'} where
  pub All-imp : (xs : List A) → ((x : A) → P x → Q x) → All P xs → All Q xs
  All-imp [] k h = tt
  All-imp (x ∷ xs) k h = (k x h.0, All-imp xs k h.1)

module _ {ℓ κ κ'} {A : Type ℓ} (P : A → Type κ) (Q : A → Type κ') where
  pub All-zip : (xs : List A) → All P xs → All Q xs → All (λ x. P x × Q x) xs
  All-zip [] h k = tt
  All-zip (x ∷ xs) h k = ((h.0, k.0), All-zip xs h.1 k.1)

module _ {ℓ ℓ' κ} {A : Type ℓ} {B : Type ℓ'} (P : B → Type κ) where
  pub All-map : (f : A → B) (xs : List A) → All (λ x. P (f x)) xs → All P (map f xs)
  All-map f [] h = tt
  All-map f (x ∷ xs) h = (h.0, All-map f xs h.1)

module _ {ℓ κ} {A : Type ℓ} (R : A → A → Type κ) where
  abbrev pub Pairwise : List A → Type κ
  Pairwise [] = Unit
  Pairwise (x ∷ xs) = All (R x) xs × Pairwise xs

  pub Pairwise-last :
      (xs : List A) (y : A) → Pairwise xs → All (λ x. R x y) xs → Pairwise (xs ++ y ∷ [])
  Pairwise-last [] y h k = (tt, tt)
  Pairwise-last (x ∷ xs) y h k =
      (All-append (R x) xs (y ∷ []) h.0 (k.0, tt), Pairwise-last xs y h.1 k.1)

  pub Pairwise-filter : (p : A → Bool) (xs : List A) → Pairwise xs → Pairwise (filter p xs)
  Pairwise-filter p [] h = tt
  Pairwise-filter p (x ∷ xs) h = elim (Bool-cases (p x)) [
    | inl e ↦ rw e (All-filter (R x) p xs h.0, Pairwise-filter p xs h.1)
    | inr e ↦ rw e (Pairwise-filter p xs h.1)
  ]

-- A map that keeps the relation between elements with a property keeps it along the list.
module _ {ℓ κ κ'} {A : Type ℓ} {P : A → Type κ'} (R : A → A → Type κ) (f : A → A) where
  All-map_related :
      (k : (x y : A) → P x → P y → R x y → R (f x) (f y)) (x : A) (ys : List A)
      → P x
      → All P ys
      → All (R x) ys
      → All (R (f x)) (map f ys)
  All-map_related k x [] p h r = tt
  All-map_related k x (y ∷ ys) p h r = (k x y p h.0 r.0, All-map_related k x ys p h.1 r.1)

  pub Pairwise-map :
      (k : (x y : A) → P x → P y → R x y → R (f x) (f y)) (xs : List A)
      → All P xs
      → Pairwise R xs
      → Pairwise R (map f xs)
  Pairwise-map k [] p h = tt
  Pairwise-map k (x ∷ xs) p h = (All-map_related k x xs p.0 p.1 h.0, Pairwise-map k xs p.1 h.1)
