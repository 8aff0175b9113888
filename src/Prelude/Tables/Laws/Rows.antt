-- ===== src/Prelude/Tables/Laws/Rows.antt =====
-- Counting, finding and testing rows after an insertion, an update or a deletion.
use Prim.Native.Nat.{◌+◌, ◌≤◌, ◌<◌}
use mathlib.Core.Path.{◌≡◌, refl}
use mathlib.Core.Logic.{inl, inr}
use mathlib.Core.Bool.{Bool, true, false, ◌&&◌, ◌||◌, not}
use mathlib.Core.Option
use mathlib.Core.Option.{Option, none, some}
use mathlib.Core.List.{List, [], ◌∷◌}
use native.Mathlib.Omega.{arith}
use harness_security_gateway.Prelude.Tests.{if◌then◌else◌, Bool-cases}
use harness_security_gateway.Prelude.Tables.{
  find_where, select_where, count_where, exists_where, update_where, delete_where, insert_row,
}

module _ {ℓ} {A : Type ℓ} where
  pub count_where-insert :
      (p : A → Bool) (x : A) (xs : List A)
      → count_where p (insert_row x xs) ≡ count_where p xs + (if p x then 1 else 0)
  unfolding count_where insert_row
  count_where-insert p x [] = omega arith
  count_where-insert p x (y ∷ xs) = omega (arith, count_where-insert p x xs)

  pub count_where-delete_le :
      (p q : A → Bool) (xs : List A) → count_where p (delete_where q xs) ≤ count_where p xs
  unfolding count_where delete_where
  count_where-delete_le p q [] = omega arith
  count_where-delete_le p q (x ∷ xs) = ground (arith, count_where-delete_le p q xs)

  -- An update that makes no row satisfy `p` anew does not raise the count.
  pub count_where-update_le :
      (p q : A → Bool) (f : A → A) (xs : List A)
      → ((x : A) → q x ≡ true → p (f x) ≡ true → p x ≡ true)
      → count_where p (update_where q f xs) ≤ count_where p xs
  unfolding count_where update_where
  count_where-update_le p q f [] h = omega arith
  count_where-update_le p q f (x ∷ xs) h = ground (arith, h x, count_where-update_le p q f xs h)

  -- Any update raises the count by the number of updated rows at most.
  pub count_where-update_add :
      (p q : A → Bool) (f : A → A) (xs : List A)
      → count_where p (update_where q f xs) ≤ count_where p xs + count_where q xs
  unfolding count_where update_where
  count_where-update_add p q f [] = omega arith
  count_where-update_add p q f (x ∷ xs) = ground (arith, count_where-update_add p q f xs)

  pub count_where-le :
      (p q : A → Bool) (xs : List A)
      → ((x : A) → p x ≡ true → q x ≡ true)
      → count_where p xs ≤ count_where q xs
  unfolding count_where
  count_where-le p q [] h = omega arith
  count_where-le p q (x ∷ xs) h = ground (arith, h x, count_where-le p q xs h)

  pub count_where-not-exists :
      (p : A → Bool) (xs : List A) → exists_where p xs ≡ false → count_where p xs ≡ 0
  unfolding count_where exists_where
  count_where-not-exists p [] h = refl
  count_where-not-exists p (x ∷ xs) h = ground (arith, count_where-not-exists p xs)

  pub exists_where-count_pos :
      (p : A → Bool) (xs : List A) → exists_where p xs ≡ true → 0 < count_where p xs
  unfolding count_where exists_where
  exists_where-count_pos p [] h = cc
  exists_where-count_pos p (x ∷ xs) h = ground (arith, exists_where-count_pos p xs)

  pub find_where_sound :
      (p : A → Bool) (xs : List A) (x : A) → find_where p xs ≡ some x → p x ≡ true
  unfolding find_where
  find_where_sound p [] x h = cc
  find_where_sound p (y ∷ xs) x h = ground (arith, find_where_sound p xs x)

  pub find_where-exists :
      (p : A → Bool) (xs : List A) (x : A) → find_where p xs ≡ some x → exists_where p xs ≡ true
  unfolding find_where exists_where
  find_where-exists p [] x h = cc
  find_where-exists p (y ∷ xs) x h = ground (arith, find_where-exists p xs x)

  pub find_where-none :
      (p : A → Bool) (xs : List A) → find_where p xs ≡ none → exists_where p xs ≡ false
  unfolding find_where exists_where
  find_where-none p [] h = refl
  find_where-none p (y ∷ xs) h = ground (arith, find_where-none p xs)

  pub find_where-not-exists :
      (p : A → Bool) (xs : List A) → exists_where p xs ≡ false → find_where p xs ≡ none
  unfolding find_where exists_where
  find_where-not-exists p [] h = refl
  find_where-not-exists p (y ∷ xs) h = ground (arith, find_where-not-exists p xs)

  pub exists-find_where :
      (p : A → Bool) (xs : List A) → exists_where p xs ≡ true → (x : A) × (find_where p xs ≡ some x)
  unfolding find_where exists_where
  exists-find_where p [] h = cc
  exists-find_where p (y ∷ xs) h = elim (Bool-cases (p y)) [
    | inl e ↦ (y, rw e)
    | inr e ↦ rw e (exists-find_where p xs (ground arith))
  ]

  -- An insertion that the test does not find leaves the first row that it does.
  pub find_where-insert :
      (p : A → Bool) (x : A) (xs : List A)
      → find_where p (insert_row x xs)
        ≡ (if exists_where p xs then find_where p xs else if p x then some x else none)
  unfolding find_where insert_row exists_where
  find_where-insert p x [] = refl
  find_where-insert p x (y ∷ xs) = elim (Bool-cases (p y)) [
    | inl e ↦ rw e
    | inr e ↦ rw e (find_where-insert p x xs)
  ]

  -- An update that the test does not notice is made in the row found.
  pub find_where-update :
      (p q : A → Bool) (f : A → A) (xs : List A)
      → ((x : A) → p (f x) ≡ p x)
      → find_where p (update_where q f xs)
        ≡ Option.map (λ x. if q x then f x else x) (find_where p xs)
  unfolding find_where update_where
  find_where-update p q f [] h = refl
  find_where-update p q f (x ∷ xs) h = ground (arith, h x, find_where-update p q f xs h)

  pub exists_where-insert :
      (p : A → Bool) (x : A) (xs : List A)
      → exists_where p (insert_row x xs) ≡ (exists_where p xs || p x)
  unfolding exists_where insert_row
  exists_where-insert p x [] = ground arith
  exists_where-insert p x (y ∷ xs) = ground (arith, exists_where-insert p x xs)

  pub exists_where-update :
      (p q : A → Bool) (f : A → A) (xs : List A)
      → ((x : A) → p (f x) ≡ p x)
      → exists_where p (update_where q f xs) ≡ exists_where p xs
  unfolding exists_where update_where
  exists_where-update p q f [] h = refl
  exists_where-update p q f (x ∷ xs) h = ground (arith, h x, exists_where-update p q f xs h)

  -- A deletion that spares the rows of the test.
  pub exists_where-delete :
      (p q : A → Bool) (xs : List A)
      → ((x : A) → p x ≡ true → q x ≡ false)
      → exists_where p (delete_where q xs) ≡ exists_where p xs
  unfolding exists_where delete_where
  exists_where-delete p q [] h = refl
  exists_where-delete p q (x ∷ xs) h = ground (arith, h x, exists_where-delete p q xs h)

  pub exists_where-deleted :
      (p : A → Bool) (xs : List A) → exists_where p (delete_where p xs) ≡ false
  unfolding exists_where delete_where
  exists_where-deleted p [] = refl
  exists_where-deleted p (x ∷ xs) = ground (arith, exists_where-deleted p xs)

  pub exists_where-delete_le :
      (p q : A → Bool) (xs : List A)
      → exists_where p xs ≡ false
      → exists_where p (delete_where q xs) ≡ false
  unfolding exists_where delete_where
  exists_where-delete_le p q [] h = refl
  exists_where-delete_le p q (x ∷ xs) h = ground (arith, exists_where-delete_le p q xs)

  -- A row that is there and that a deletion does not mean is still there.
  pub exists_where-survives :
      (p q : A → Bool) (xs : List A)
      → exists_where (λ x. p x && not (q x)) xs ≡ true
      → exists_where p (delete_where q xs) ≡ true
  unfolding exists_where delete_where
  exists_where-survives p q [] h = cc
  exists_where-survives p q (x ∷ xs) h = ground (arith, exists_where-survives p q xs)

  -- A selection after an insertion.
  pub select_where-insert :
      (p : A → Bool) (x : A) (xs : List A)
      → select_where p (insert_row x xs)
        ≡ (if p x then insert_row x (select_where p xs) else select_where p xs)
  unfolding select_where insert_row
  select_where-insert p x [] = refl
  select_where-insert p x (y ∷ xs) = ground (arith, select_where-insert p x xs)
