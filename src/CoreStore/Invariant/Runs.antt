-- ===== src/CoreStore/Invariant/Runs.antt =====
-- The changes that the operations make of the table runs keep its invariant.
use harness_security_gateway.Prelude.{◌≡◌, Bool, true, List, [], ◌∷◌, arith}
use harness_security_gateway.Prelude.Bytes.{Bytes}
use harness_security_gateway.Prelude.Tables.{update_where, delete_where, All}
use harness_security_gateway.Prelude.Tables.Laws.{
  count_where-delete_le, count_where-update_le_of, All-delete, All-update,
}
use harness_security_gateway.CoreStore.Types.{Run, SessionKey, is_active}
use harness_security_gateway.CoreStore.Tables.{has_id, holds_scope}
use harness_security_gateway.CoreStore.Dispatch.{has_dispatch_token}
use harness_security_gateway.CoreStore.Invariant.{IsValidRun, IsRunTable}

-- An update of rows that keeps identifiers and scopes, and makes no row hold a token, be active or
-- be nonterminal that was not.
pub record IsMild (R : Run → Type 0) (q : Run → Bool) (f : Run → Run) : Type 0 where
  pub valid : (x : Run) → R x → q x ≡ true → IsValidRun x → IsValidRun (f x)
  pub same_id : (x : Run) → (f x).id ≡ x.id
  pub token :
      (t : Bytes) (x : Run)
      → R x
      → q x ≡ true
      → has_dispatch_token t (f x) ≡ true
      → has_dispatch_token t x ≡ true
  pub active :
      (x : Run) → R x → q x ≡ true → is_active (f x).state ≡ true → is_active x.state ≡ true
  pub scope :
      (key : SessionKey) (x : Run)
      → R x
      → q x ≡ true
      → holds_scope key (f x) ≡ true
      → holds_scope key x ≡ true

All-both :
    (R : Run → Type 0) (runs : List Run)
    → All R runs
    → All IsValidRun runs
    → All (λ x. R x × IsValidRun x) runs
All-both R [] a b = tt
All-both R (x ∷ runs) a b = ((a.0, b.0), All-both R runs a.1 b.1)

pub update-IsRunTable :
    (R : Run → Type 0) (q : Run → Bool) (f : Run → Run) (runs : List Run)
    → IsMild R q f
    → All R runs
    → IsRunTable runs
    → IsRunTable (update_where q f runs)
unfolding has_id
update-IsRunTable R q f runs m r t = record {
  rows =
      All-update (λ x. R x × IsValidRun x) IsValidRun q f runs (λ x e h. m.valid x h.0 e h.1)
        (λ x e h. h.1) (All-both R runs r t.rows);
  ids = λ id. omega (
    arith,
    count_where-update_le_of R (has_id id) q f runs r (λ x _ _ h. rw m.same_id at h),
    t.ids id,
  );
  tokens = λ token. omega (
    arith,
    count_where-update_le_of R (has_dispatch_token token) q f runs r (m.token token),
    t.tokens token,
  );
  one_active = omega (
    arith,
    count_where-update_le_of R (λ x. is_active x.state) q f runs r m.active,
    t.one_active,
  );
  one_per_scope = λ key. omega (
    arith,
    count_where-update_le_of R (holds_scope key) q f runs r (m.scope key),
    t.one_per_scope key,
  );
}

pub delete-IsRunTable :
    (q : Run → Bool) (runs : List Run) → IsRunTable runs → IsRunTable (delete_where q runs)
delete-IsRunTable q runs t = record {
  rows = All-delete IsValidRun q runs t.rows;
  ids = λ id. omega (arith, count_where-delete_le (has_id id) q runs, t.ids id);
  tokens = λ k. omega (arith, count_where-delete_le (has_dispatch_token k) q runs, t.tokens k);
  one_active = omega (arith, count_where-delete_le (λ x. is_active x.state) q runs, t.one_active);
  one_per_scope =
      λ k. omega (arith, count_where-delete_le (holds_scope k) q runs, t.one_per_scope k);
}
