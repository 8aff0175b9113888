-- ===== src/Prelude/Tables/Laws/Every.antt =====
-- What holds of every row, and rows that are unique.
use Prim.Native.Nat.{◌≤◌}
use mathlib.Core.Path.{◌≡◌, refl}
use mathlib.Core.Logic.{inl, inr}
use mathlib.Core.Bool.{Bool, true, false, ◌&&◌}
use mathlib.Core.Option.{none, some}
use mathlib.Core.List.{List, [], ◌∷◌}
use native.Mathlib.Omega.{arith}
use harness_security_gateway.Prelude.Tests.{Bool-cases}
use harness_security_gateway.Prelude.Tables.{
  find_where, count_where, exists_where, update_where, delete_where, insert_row, All,
}

module _ {ℓ κ} {A : Type ℓ} (P : A → Type κ) where
  pub All-insert : (x : A) (xs : List A) → P x → All P xs → All P (insert_row x xs)
  unfolding insert_row
  All-insert x [] h hs = (h, tt)
  All-insert x (y ∷ xs) h hs = (hs.0, All-insert x xs h hs.1)

  pub All-delete : (q : A → Bool) (xs : List A) → All P xs → All P (delete_where q xs)
  unfolding delete_where
  All-delete q [] hs = tt
  All-delete q (x ∷ xs) hs = elim (Bool-cases (q x)) [
    | inl e ↦ rw e (All-delete q xs hs.1)
    | inr e ↦ rw e (hs.0, All-delete q xs hs.1)
  ]

  pub All-find_where :
      (p : A → Bool) (xs : List A) (x : A) → All P xs → find_where p xs ≡ some x → P x
  unfolding find_where
  All-find_where p [] x hs h = cc
  All-find_where p (y ∷ xs) x hs h = elim (Bool-cases (p y)) [
    | inl e ↦ ground (arith, hs.0)
    | inr e ↦ All-find_where p xs x hs.1 (ground arith)
  ]

module _ {ℓ κ μ} {A : Type ℓ} (P : A → Type κ) (Q : A → Type μ) where
  pub All-both : (xs : List A) → All P xs → All Q xs → All (λ x. P x × Q x) xs
  All-both [] hp hq = tt
  All-both (x ∷ xs) hp hq = ((hp.0, hq.0), All-both xs hp.1 hq.1)

  pub All-map : (xs : List A) → ((x : A) → P x → Q x) → All P xs → All Q xs
  All-map [] h hs = tt
  All-map (x ∷ xs) h hs = (h x hs.0, All-map xs h hs.1)

  -- An update keeps a predicate that each updated row keeps.
  pub All-update :
      (q : A → Bool) (f : A → A) (xs : List A)
      → ((x : A) → q x ≡ true → P x → Q (f x))
      → ((x : A) → q x ≡ false → P x → Q x)
      → All P xs
      → All Q (update_where q f xs)
  unfolding update_where
  All-update q f [] h k hs = tt
  All-update q f (x ∷ xs) h k hs = elim (Bool-cases (q x)) [
    | inl e ↦ rw e (h x e hs.0, All-update q f xs h k hs.1)
    | inr e ↦ rw e (k x e hs.0, All-update q f xs h k hs.1)
  ]

module _ {ℓ κ} {A : Type ℓ} (P : A → Type κ) where
  pub All-update_same :
      (q : A → Bool) (f : A → A) (xs : List A)
      → ((x : A) → q x ≡ true → P x → P (f x))
      → All P xs
      → All P (update_where q f xs)
  All-update_same q f xs h hs = All-update P P q f xs h (λ x e p. p) hs

module _ {ℓ κ} {A : Type ℓ} (R : A → Type κ) where
  -- As count_where-update_le, with a fact about every row.
  pub count_where-update_le_of :
      (p q : A → Bool) (f : A → A) (xs : List A)
      → All R xs
      → ((x : A) → R x → q x ≡ true → p (f x) ≡ true → p x ≡ true)
      → count_where p (update_where q f xs) ≤ count_where p xs
  unfolding count_where update_where
  count_where-update_le_of p q f [] hs h = omega arith
  count_where-update_le_of p q f (x ∷ xs) hs h =
      ground (arith, h x hs.0, count_where-update_le_of p q f xs hs.1 h)

module _ {ℓ} {A : Type ℓ} where
  none-All :
      (p : A → Bool) (r : A) (xs : List A) → count_where p xs ≡ 0 → All (λ x. p x ≡ true → x ≡ r) xs
  unfolding count_where
  none-All p r [] h = tt
  none-All p r (x ∷ xs) h = (λ e. ground arith, none-All p r xs (ground arith))

  -- Where at most one row satisfies a test, it is the row found.
  pub find_where_unique :
      (p : A → Bool) (xs : List A) (r : A)
      → count_where p xs ≤ 1
      → find_where p xs ≡ some r
      → All (λ x. p x ≡ true → x ≡ r) xs
  unfolding count_where find_where
  find_where_unique p [] r c h = tt
  find_where_unique p (x ∷ xs) r c h = elim (Bool-cases (p x)) [
    | inl e ↦ (λ _. ground arith, none-All p r xs (ground arith))
    | inr e ↦ (λ e'. cc, find_where_unique p xs r (ground arith) (ground arith))
  ]

module _ {ℓ} {A : Type ℓ} where
  -- Each row of a table makes the tests that it passes succeed on the table.
  pub All-exists :
      (xs : List A) → All (λ x. (p : A → Bool) → p x ≡ true → exists_where p xs ≡ true) xs
  unfolding exists_where
  All-exists [] = tt
  All-exists (x ∷ xs) = (
    λ p h. rw h,
    All-map (λ y. (p : A → Bool) → p y ≡ true → exists_where p xs ≡ true)
        (λ y. (p : A → Bool) → p y ≡ true → exists_where p (x ∷ xs) ≡ true) xs
        (λ y h p e. ground (arith, h p e)) (All-exists xs),
  )

  zero-find_where :
      (p q : A → Bool) (xs : List A) → count_where p xs ≡ 0 → find_where (λ x. p x && q x) xs ≡ none
  unfolding count_where find_where
  zero-find_where p q [] h = refl
  zero-find_where p q (x ∷ xs) h = ground (arith, zero-find_where p q xs)

  -- Where a test holds of one row at most, a narrower test that finds a row finds that row.
  pub find_where-and :
      (p q : A → Bool) (xs : List A) (r : A)
      → count_where p xs ≤ 1
      → find_where (λ x. p x && q x) xs ≡ some r
      → find_where p xs ≡ some r
  unfolding count_where find_where
  find_where-and p q [] r c h = h
  find_where-and p q (x ∷ xs) r c h =
      ground (arith, zero-find_where p q xs, find_where-and p q xs r)

  -- A narrower test does not succeed where a wider one fails.
  pub exists_where-narrow :
      (p q : A → Bool) (xs : List A)
      → exists_where p xs ≡ false
      → exists_where (λ x. p x && q x) xs ≡ false
  unfolding exists_where
  exists_where-narrow p q [] h = refl
  exists_where-narrow p q (x ∷ xs) h = ground (arith, exists_where-narrow p q xs)
