-- ===== src/Prelude/Tables.antt =====
-- A database table as a list of rows, with the queries and writes that the program makes of it.
use Prim.Native.Nat.{ℕ, zero, suc, ◌-◌, ◌*◌, ◌+◌}
use mathlib.Core.Path.{◌≡◌, refl, subst}
use mathlib.Core.Logic.{inl, inr}
use mathlib.Core.Bool.{Bool, true, false}
use mathlib.Core.Option.{Option, none, some}
use mathlib.Core.List.{List, [], ◌∷◌}
use native.Mathlib.Omega.{arith}
use coffee_traceability_back.Prelude.Tests.{ltb, if◌then◌else◌, Bool-cases}

module _ {ℓ} {A : Type ℓ} where
  abbrev pub length : List A → ℕ
  length [] = 0
  length (x ∷ xs) = suc (length xs)

  -- `findFirst`: some row that passes, if there is one.
  abbrev pub find? : (A → Bool) → List A → Option A
  find? p [] = none
  find? p (x ∷ xs) = if p x then some x else find? p xs

  -- `findMany`
  abbrev pub select : (A → Bool) → List A → List A
  select p [] = []
  select p (x ∷ xs) = let rest = select p xs in if p x then x ∷ rest else rest

  -- `updateMany`: every row that passes is rewritten.
  abbrev pub update_where : (A → Bool) → (A → A) → List A → List A
  update_where p f [] = []
  update_where p f (x ∷ xs) = (if p x then f x else x) ∷ update_where p f xs

  abbrev pub any : (A → Bool) → List A → Bool
  any p [] = false
  any p (x ∷ xs) = if p x then true else any p xs

  abbrev pub sum_by : (A → ℕ) → List A → ℕ
  sum_by f [] = 0
  sum_by f (x ∷ xs) = f x + sum_by f xs

  -- `orderBy: { key: "desc" }`; of equal keys, the row that stands first stays first.
  abbrev pub insert_desc : (A → ℕ) → A → List A → List A
  insert_desc key x [] = x ∷ []
  insert_desc key x (y ∷ ys) =
      let rest = insert_desc key x ys in if ltb (key x) (key y) then y ∷ rest else x ∷ y ∷ ys

  abbrev pub order_desc : (A → ℕ) → List A → List A
  order_desc key [] = []
  order_desc key (x ∷ xs) = insert_desc key x (order_desc key xs)

  -- `skip` and `take` of a query.
  abbrev pub skip_rows : ℕ → List A → List A
  skip_rows zero xs = xs
  skip_rows (suc n) [] = []
  skip_rows (suc n) (x ∷ xs) = skip_rows n xs

  abbrev pub take_rows : ℕ → List A → List A
  take_rows zero xs = []
  take_rows (suc n) [] = []
  take_rows (suc n) (x ∷ xs) = x ∷ take_rows n xs

  -- `skip: (page - 1) * limit, take: limit`; pages count from 1.
  abbrev pub page_of : ℕ → ℕ → List A → List A
  page_of page limit rows = take_rows limit (skip_rows ((page - 1) * limit) rows)

  -- Every row has the property.
  abbrev pub All {κ} : (A → Type κ) → List A → Type κ
  All P [] = Unit
  All P (x ∷ xs) = P x × All P xs

module _ {ℓ} {A : Type ℓ} where
  -- The row that a query returns passes its test.
  pub find?-passes : (p : A → Bool) (xs : List A) {x : A} → find? p xs ≡ some x → p x ≡ true
  find?-passes p [] e = cc
  find?-passes p (y ∷ xs) {x} e = elim (Bool-cases (p y)) [
    | inl here ↦ ground (arith, here)
    | inr there ↦ find?-passes p xs (rw there at e)
  ]

  -- A write that does not change the test of a query commutes with it.
  pub find?-update_where :
      (p q : A → Bool) (f : A → A) (xs : List A)
      → ((x : A) → p (f x) ≡ p x)
      → find? p (update_where q f xs)
        ≡ elim (find? p xs) [ none ↦ none | some x ↦ some (if q x then f x else x) ]
  find?-update_where p q f [] h = refl
  find?-update_where p q f (x ∷ xs) h = ground (arith, h x, find?-update_where p q f xs h)

  -- A test that no row passes finds nothing.
  pub find?-none_of_any :
      (p q : A → Bool) (xs : List A)
      → ((x : A) → p x ≡ true → q x ≡ true)
      → any q xs ≡ false
      → find? p xs ≡ none
  find?-none_of_any p q [] h e = refl
  find?-none_of_any p q (x ∷ xs) h e = ground (arith, h x, find?-none_of_any p q xs h)

  pub any-update_where :
      (p q : A → Bool) (f : A → A) (xs : List A)
      → ((x : A) → p (f x) ≡ p x)
      → any p (update_where q f xs) ≡ any p xs
  any-update_where p q f [] h = refl
  any-update_where p q f (x ∷ xs) h = ground (arith, h x, any-update_where p q f xs h)

  pub length-update_where :
      (q : A → Bool) (f : A → A) (xs : List A) → length (update_where q f xs) ≡ length xs
  length-update_where q f [] = refl
  length-update_where q f (x ∷ xs) = ground (arith, length-update_where q f xs)

module _ {ℓ κ} {A : Type ℓ} where
  pub All-find? :
      (P : A → Type κ) (p : A → Bool) (xs : List A) {x : A} → All P xs → find? p xs ≡ some x → P x
  All-find? P p [] h e = cc
  All-find? P p (y ∷ xs) {x} h e = elim (Bool-cases (p y)) [
    | inl here ↦ (let same : y ≡ x = ground (arith, here) in subst P same h.0)
    | inr there ↦ All-find? P p xs h.1 (rw there at e)
  ]

  pub All-select : (P : A → Type κ) (p : A → Bool) (xs : List A) → All P xs → All P (select p xs)
  All-select P p [] h = tt
  All-select P p (x ∷ xs) h = elim (Bool-cases (p x)) [
    | inl kept ↦ rw kept (h.0, All-select P p xs h.1)
    | inr dropped ↦ rw dropped (All-select P p xs h.1)
  ]

module _ {ℓ κ} {A : Type ℓ} (P : A → Type κ) where
  All-insert_desc :
      (key : A → ℕ) (x : A) (xs : List A) → P x → All P xs → All P (insert_desc key x xs)
  All-insert_desc key x [] h all = (h, tt)
  All-insert_desc key x (y ∷ ys) h all = elim (Bool-cases (ltb (key x) (key y))) [
    | inl e ↦ rw e (all.0, All-insert_desc key x ys h all.1)
    | inr e ↦ rw e (h, all)
  ]

  pub All-order_desc : (key : A → ℕ) (xs : List A) → All P xs → All P (order_desc key xs)
  All-order_desc key [] all = tt
  All-order_desc key (x ∷ xs) all =
      All-insert_desc key x (order_desc key xs) all.0 (All-order_desc key xs all.1)

  All-skip_rows : (n : ℕ) (xs : List A) → All P xs → All P (skip_rows n xs)
  All-skip_rows zero xs all = all
  All-skip_rows (suc n) [] all = tt
  All-skip_rows (suc n) (x ∷ xs) all = All-skip_rows n xs all.1

  All-take_rows : (n : ℕ) (xs : List A) → All P xs → All P (take_rows n xs)
  All-take_rows zero xs all = tt
  All-take_rows (suc n) [] all = tt
  All-take_rows (suc n) (x ∷ xs) all = (all.0, All-take_rows n xs all.1)

  pub All-page_of : (page limit : ℕ) (xs : List A) → All P xs → All P (page_of page limit xs)
  All-page_of page limit xs all =
      All-take_rows limit (skip_rows ((page - 1) * limit) xs)
        (All-skip_rows ((page - 1) * limit) xs all)

  -- The rows that a query selects pass its test.
  pub All-selected :
      (p : A → Bool) (xs : List A) → ((x : A) → p x ≡ true → P x) → All P (select p xs)
  All-selected p [] h = tt
  All-selected p (x ∷ xs) h = elim (Bool-cases (p x)) [
    | inl kept ↦ rw kept (h x kept, All-selected p xs h)
    | inr dropped ↦ rw dropped (All-selected p xs h)
  ]

module _ {ℓ κ μ} {A : Type ℓ} where
  pub All-imp :
      (P : A → Type κ) (Q : A → Type μ) (xs : List A) → ((x : A) → P x → Q x) → All P xs → All Q xs
  All-imp P Q [] h all = tt
  All-imp P Q (x ∷ xs) h all = (h x all.0, All-imp P Q xs h all.1)

  -- What a write makes of a property of every row, by whether the row is written.
  pub All-update_where :
      (P : A → Type κ) (Q : A → Type μ) (q : A → Bool) (f : A → A) (xs : List A)
      → ((x : A) → q x ≡ true → P x → Q (f x))
      → ((x : A) → q x ≡ false → P x → Q x)
      → All P xs
      → All Q (update_where q f xs)
  All-update_where P Q q f [] hit miss all = tt
  All-update_where P Q q f (x ∷ xs) hit miss all = (
    elim (Bool-cases (q x)) [ inl e ↦ rw e (hit x e all.0) | inr e ↦ rw e (miss x e all.0) ],
    All-update_where P Q q f xs hit miss all.1,
  )
