-- ===== src/Prelude/Ordering.antt =====
-- `orderBy` of a query by any comparison, and what no order of the rows changes.
use Prim.Native.Nat.{ℕ, ◌+◌}
use mathlib.Core.Path.{◌≡◌, refl}
use mathlib.Core.Logic.{inl, inr}
use mathlib.Core.Bool.{Bool, true}
use mathlib.Core.List.{List, [], ◌∷◌, map}
use native.Mathlib.Omega.{arith}
use coffee_traceability_back.Prelude.Tests.{if◌then◌else◌, Bool-cases}
use coffee_traceability_back.Prelude.Tables.{sum_by, insert_desc, order_desc, any, length, All}

module _ {ℓ} {A : Type ℓ} (before : A → A → Bool) where
  abbrev pub insert_by : A → List A → List A
  insert_by x [] = x ∷ []
  insert_by x (y ∷ ys) = let rest = insert_by x ys in if before y x then y ∷ rest else x ∷ y ∷ ys

  -- Rows of which neither is before the other keep their order.
  abbrev pub order_by : List A → List A
  order_by [] = []
  order_by (x ∷ xs) = insert_by x (order_by xs)

  sum_by-insert_by :
      (f : A → ℕ) (x : A) (xs : List A) → sum_by f (insert_by x xs) ≡ f x + sum_by f xs
  sum_by-insert_by f x [] = refl
  sum_by-insert_by f x (y ∷ ys) = ground (arith, sum_by-insert_by f x ys)

  pub sum_by-order_by : (f : A → ℕ) (xs : List A) → sum_by f (order_by xs) ≡ sum_by f xs
  sum_by-order_by f [] = refl
  sum_by-order_by f (x ∷ xs) =
      grind (arith, sum_by-insert_by f x (order_by xs), sum_by-order_by f xs)

  any-insert_by :
      (p : A → Bool) (x : A) (xs : List A)
      → any p (insert_by x xs) ≡ (if p x then true else any p xs)
  any-insert_by p x [] = refl
  any-insert_by p x (y ∷ ys) = ground (arith, any-insert_by p x ys)

  pub any-order_by : (p : A → Bool) (xs : List A) → any p (order_by xs) ≡ any p xs
  any-order_by p [] = refl
  any-order_by p (x ∷ xs) = ground (arith, any-insert_by p x (order_by xs), any-order_by p xs)

  module _ {κ} (P : A → Type κ) where
    All-insert_by : (x : A) (xs : List A) → P x → All P xs → All P (insert_by x xs)
    All-insert_by x [] h all = (h, tt)
    All-insert_by x (y ∷ ys) h all = elim (Bool-cases (before y x)) [
      | inl e ↦ rw e (all.0, All-insert_by x ys h all.1)
      | inr e ↦ rw e (h, all)
    ]

    pub All-order_by : (xs : List A) → All P xs → All P (order_by xs)
    All-order_by [] all = tt
    All-order_by (x ∷ xs) all = All-insert_by x (order_by xs) all.0 (All-order_by xs all.1)

module _ {ℓ} {A : Type ℓ} (key : A → ℕ) where
  sum_by-insert_desc :
      (f : A → ℕ) (x : A) (xs : List A) → sum_by f (insert_desc key x xs) ≡ f x + sum_by f xs
  sum_by-insert_desc f x [] = refl
  sum_by-insert_desc f x (y ∷ ys) = ground (arith, sum_by-insert_desc f x ys)

  pub sum_by-order_desc : (f : A → ℕ) (xs : List A) → sum_by f (order_desc key xs) ≡ sum_by f xs
  sum_by-order_desc f [] = refl
  sum_by-order_desc f (x ∷ xs) =
      grind (arith, sum_by-insert_desc f x (order_desc key xs), sum_by-order_desc f xs)

  any-insert_desc :
      (p : A → Bool) (x : A) (xs : List A)
      → any p (insert_desc key x xs) ≡ (if p x then true else any p xs)
  any-insert_desc p x [] = refl
  any-insert_desc p x (y ∷ ys) = ground (arith, any-insert_desc p x ys)

  pub any-order_desc : (p : A → Bool) (xs : List A) → any p (order_desc key xs) ≡ any p xs
  any-order_desc p [] = refl
  any-order_desc p (x ∷ xs) =
      ground (arith, any-insert_desc p x (order_desc key xs), any-order_desc p xs)

module _ {ℓ κ} {A : Type ℓ} {B : Type κ} where
  pub sum_by-map :
      (f : B → ℕ) (g : A → B) (xs : List A) → sum_by f (map g xs) ≡ sum_by (λ x. f (g x)) xs
  sum_by-map f g [] = refl
  sum_by-map f g (x ∷ xs) = ground (arith, sum_by-map f g xs)

  pub any-map : (p : B → Bool) (g : A → B) (xs : List A) → any p (map g xs) ≡ any (λ x. p (g x)) xs
  any-map p g [] = refl
  any-map p g (x ∷ xs) = ground (arith, any-map p g xs)

pub sum_by-pointwise {ℓ} :
    {A : Type ℓ} (f g : A → ℕ) (xs : List A) → ((x : A) → f x ≡ g x) → sum_by f xs ≡ sum_by g xs
sum_by-pointwise f g [] h = refl
sum_by-pointwise f g (x ∷ xs) h = grind (arith, h x, sum_by-pointwise f g xs h)

pub length-sum_by {ℓ} : {A : Type ℓ} (xs : List A) → length xs ≡ sum_by (λ x. 1) xs
length-sum_by [] = refl
length-sum_by (x ∷ xs) = grind (arith, length-sum_by xs)
