-- ===== src/Tables.antt =====
-- `SELECT`, `UPDATE` and `DELETE` on a table, by the test of the WHERE clause.
use mathlib.Core.Option
use host_container.Prelude.{
  ℕ, ◌+◌, ◌≡◌, refl, Bool, true, Option, none, some, List, [], ◌∷◌, ◌++◌, arith, if◌then◌else◌,
  Bool-cases, inl, inr,
}

module _ {ℓ} {A : Type ℓ} where
  -- The first row that matches.
  abbrev pub find : (A → Bool) → List A → Option A
  find p [] = none
  find p (x ∷ xs) = if p x then some x else find p xs

  -- Every row that matches.
  abbrev pub select : (A → Bool) → List A → List A
  select p [] = []
  select p (x ∷ xs) = let rest = select p xs in if p x then x ∷ rest else rest

  abbrev pub update : (A → Bool) → (A → A) → List A → List A
  update p f [] = []
  update p f (x ∷ xs) = (if p x then f x else x) ∷ update p f xs

  abbrev pub delete : (A → Bool) → List A → List A
  delete p [] = []
  delete p (x ∷ xs) = let rest = delete p xs in if p x then rest else x ∷ rest

  abbrev pub count : (A → Bool) → List A → ℕ
  count p [] = 0
  count p (x ∷ xs) = let rest = count p xs in if p x then rest + 1 else rest

-- An update under a test that the new row still passes changes the row that is found, and no other.
module _ {ℓ} {A : Type ℓ} where
  pub find-update :
      (p : A → Bool) (f : A → A) (xs : List A)
      → ((x : A) → p (f x) ≡ p x)
      → find p (update p f xs) ≡ Option.map f (find p xs)
  find-update p f [] h = refl
  find-update p f (x ∷ xs) h = ground (arith, h x, find-update p f xs h)

  pub find-update_other :
      (p q : A → Bool) (f : A → A) (xs : List A)
      → ((x : A) → p x ≡ true → q x ≡ true → ⊥)
      → ((x : A) → q (f x) ≡ q x)
      → find q (update p f xs) ≡ find q xs
  find-update_other p q f [] h k = refl
  find-update_other p q f (x ∷ xs) h k = ground (arith, h x, k x, find-update_other p q f xs h k)

  pub find-delete : (p : A → Bool) (xs : List A) → find p (delete p xs) ≡ none
  find-delete p [] = refl
  find-delete p (x ∷ xs) = ground (arith, find-delete p xs)

  pub find-delete_other :
      (p q : A → Bool) (xs : List A)
      → ((x : A) → p x ≡ true → q x ≡ true → ⊥)
      → find q (delete p xs) ≡ find q xs
  find-delete_other p q [] h = refl
  find-delete_other p q (x ∷ xs) h = ground (arith, h x, find-delete_other p q xs h)

  -- What a search finds passes the test.
  pub find-holds : (p : A → Bool) (xs : List A) {x : A} → find p xs ≡ some x → p x ≡ true
  find-holds p [] h = cc
  find-holds p (y ∷ xs) h = elim (Bool-cases (p y)) [
    | inl e ↦ ground arith
    | inr e ↦ find-holds p xs (ground arith)
  ]

  pub find-update_if :
      (p q : A → Bool) (f : A → A) (xs : List A)
      → ((x : A) → q (f x) ≡ q x)
      → find q (update p f xs) ≡ Option.map (λ x. if p x then f x else x) (find q xs)
  find-update_if p q f [] h = refl
  find-update_if p q f (x ∷ xs) h = ground (arith, h x, find-update_if p q f xs h)

  pub update-update :
      (p : A → Bool) (f g : A → A) (xs : List A)
      → ((x : A) → p (f x) ≡ p x)
      → update p g (update p f xs) ≡ update p (λ x. g (f x)) xs
  update-update p f g [] h = refl
  update-update p f g (x ∷ xs) h = ground (arith, h x, update-update p f g xs h)

  pub update-same : (p : A → Bool) (xs : List A) → update p (λ x. x) xs ≡ xs
  update-same p [] = refl
  update-same p (x ∷ xs) = ground (arith, update-same p xs)

  pub count-append :
      (p : A → Bool) (xs : List A) (x : A)
      → count p (xs ++ x ∷ []) ≡ (if p x then count p xs + 1 else count p xs)
  count-append p [] x = ground arith
  count-append p (y ∷ xs) x = ground (arith, count-append p xs x)
