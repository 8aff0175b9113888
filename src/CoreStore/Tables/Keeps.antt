-- ===== src/CoreStore/Tables/Keeps.antt =====
-- A predicate of the database after an operation, with a rule for each way to build one.
use harness_security_gateway.Prelude.{◌≡◌, refl, Bool, true, false, if◌then◌else◌}
use harness_security_gateway.Prelude.Results.{Result, ok, err}
use harness_security_gateway.CoreStore.Types.{Error, Db}
use harness_security_gateway.CoreStore.Tables.{Tx, attempt}

-- `P` holds of the database that `m` leaves, whether it succeeds or fails.
pub record Keeps {A : Type 0} (P : Db → Type 0) (m : Tx A) : Type 0 where
  pub after : P m.1

module _ {A B : Type 0} where
  pub Keeps-attempt :
      {P : Db → Type 0} (r : Result Error A) (db : Db) (k : A → Tx B)
      → P db
      → ((a : A) → r ≡ ok a → Keeps P (k a))
      → Keeps P (attempt r db k)
  unfolding attempt
  Keeps-attempt (ok a) db k h hk = hk a refl
  Keeps-attempt (err e) db k h hk = record { after = h }

module _ {A : Type 0} where
  pub Keeps-if :
      {P : Db → Type 0} (b : Bool) (m n : Tx A)
      → (b ≡ true → Keeps P m)
      → (b ≡ false → Keeps P n)
      → Keeps P (if b then m else n)
  Keeps-if true m n hm hn = hm refl
  Keeps-if false m n hm hn = hn refl

  pub Keeps-pair : {P : Db → Type 0} (r : Result Error A) (db : Db) → P db → Keeps P (r, db)
  Keeps-pair r db h = record { after = h }

-- `Q` holds of the outcome of `m` and of the database that it leaves.
pub record Ensures {A : Type 0} (Q : Result Error A → Db → Type 0) (m : Tx A) : Type 0 where
  pub holds : Q m.0 m.1

module _ {A B : Type 0} where
  pub Ensures-attempt :
      {Q : Result Error B → Db → Type 0} (r : Result Error A) (db : Db) (k : A → Tx B)
      → ((e : Error) → r ≡ err e → Q (err e) db)
      → ((a : A) → r ≡ ok a → Ensures Q (k a))
      → Ensures Q (attempt r db k)
  unfolding attempt
  Ensures-attempt (ok a) db k h hk = hk a refl
  Ensures-attempt (err e) db k h hk = record { holds = h e refl }

module _ {A : Type 0} where
  pub Ensures-if :
      {Q : Result Error A → Db → Type 0} (b : Bool) (m n : Tx A)
      → (b ≡ true → Ensures Q m)
      → (b ≡ false → Ensures Q n)
      → Ensures Q (if b then m else n)
  Ensures-if true m n hm hn = hm refl
  Ensures-if false m n hm hn = hn refl

  pub Ensures-pair :
      {Q : Result Error A → Db → Type 0} (r : Result Error A) (db : Db) → Q r db → Ensures Q (r, db)
  Ensures-pair r db h = record { holds = h }
