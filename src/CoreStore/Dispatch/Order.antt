-- ===== src/CoreStore/Dispatch/Order.antt =====
-- The order of the queue: the first of a sorted table has no row before it.
use mathlib.Core.Option.{some-injective}
use harness_security_gateway.Prelude.{
  ◌≡◌, ◌≤◌, ◌+◌, refl, inl, inr, Bool, true, false, some, List, [], ◌∷◌, arith, Bool-cases,
  if◌then◌else◌,
}
use harness_security_gateway.Prelude.Bytes.{Bytes, bytes_lt, beq, beq_refl}
use harness_security_gateway.Prelude.Tables.{
  order_by, insert_by, select_where, count_where, find_where, All,
}
use harness_security_gateway.Prelude.Tables.Laws.{
  All-map, exists_where-count_pos, find_where-exists,
}
use harness_security_gateway.CoreStore.Tables.{has_id, find_run}
use harness_security_gateway.CoreStore.Types.{Run, is_queued}
use harness_security_gateway.CoreStore.Dispatch.{queue_before, first_of_list, next_queued}

bytes_lt-asym : (s t : Bytes) → bytes_lt s t ≡ true → bytes_lt t s ≡ false
unfolding bytes_lt
bytes_lt-asym [] [] h = cc
bytes_lt-asym [] (b ∷ t) h = refl
bytes_lt-asym (a ∷ s) [] h = cc
bytes_lt-asym (a ∷ s) (b ∷ t) h = ground (arith, bytes_lt-asym s t)

-- A row that is not before another is not before what that one is not before.
bytes_lt-negtrans :
    (s t u : Bytes) → bytes_lt s t ≡ false → bytes_lt t u ≡ false → bytes_lt s u ≡ false
unfolding bytes_lt
bytes_lt-negtrans [] [] u h k = k
bytes_lt-negtrans [] (b ∷ t) u h k = cc
bytes_lt-negtrans (a ∷ s) t [] h k = refl
bytes_lt-negtrans (a ∷ s) [] (c ∷ u) h k = cc
bytes_lt-negtrans (a ∷ s) (b ∷ t) (c ∷ u) h k = ground (arith, bytes_lt-negtrans s t u)

queue_before-asym : (a b : Run) → queue_before a b ≡ true → queue_before b a ≡ false
unfolding queue_before
queue_before-asym a b h = ground (arith, bytes_lt-asym a.id b.id)

queue_before-negtrans :
    (a b c : Run) → queue_before a b ≡ false → queue_before b c ≡ false → queue_before a c ≡ false
unfolding queue_before
queue_before-negtrans a b c h k = ground (arith, bytes_lt-negtrans a.id b.id c.id)

queue_before_irrefl : (a : Run) → queue_before a a ≡ false
queue_before_irrefl a = elim (Bool-cases (queue_before a a)) [
  | inl e ↦ queue_before-asym a a e
  | inr e ↦ e
]

abbrev NoneBefore : Run → List Run → Type 0
NoneBefore m rows = All (λ r. queue_before r m ≡ false) rows

NoneBefore-weaken :
    (a b : Run) (rows : List Run) → queue_before a b ≡ false → NoneBefore a rows → NoneBefore b rows
NoneBefore-weaken a b [] h n = tt
NoneBefore-weaken a b (r ∷ rows) h (n, ns) =
    (queue_before-negtrans r a b n h, NoneBefore-weaken a b rows h ns)

abbrev HeadFirst : List Run → List Run → Type 0
HeadFirst [] rows = Unit
HeadFirst (m ∷ rest) rows = NoneBefore m rows

insert_by-HeadFirst :
    (x : Run) (sorted rows : List Run)
    → HeadFirst sorted rows
    → (sorted ≡ [] → rows ≡ [])
    → HeadFirst (insert_by queue_before x sorted) (x ∷ rows)
unfolding insert_by
insert_by-HeadFirst x [] rows h e = (queue_before_irrefl x, rw (e refl) tt)
insert_by-HeadFirst x (y ∷ ys) rows h e = elim (Bool-cases (queue_before y x)) [
  | inl earlier ↦ rw earlier (queue_before-asym y x earlier, h)
  | inr later ↦ rw later (queue_before_irrefl x, NoneBefore-weaken y x rows later h)
]

insert_by-nonempty : (x : Run) (sorted : List Run) → insert_by queue_before x sorted ≡ [] → ⊥
unfolding insert_by
insert_by-nonempty x [] h = cc
insert_by-nonempty x (y ∷ ys) h = ground arith

order_by-nonempty : (rows : List Run) → order_by queue_before rows ≡ [] → rows ≡ []
unfolding order_by
order_by-nonempty [] h = refl
order_by-nonempty (x ∷ rows) h = absurd (insert_by-nonempty x (order_by queue_before rows) h)

order_by-HeadFirst : (rows : List Run) → HeadFirst (order_by queue_before rows) rows
unfolding order_by
order_by-HeadFirst [] = tt
order_by-HeadFirst (x ∷ rows) =
    insert_by-HeadFirst x (order_by queue_before rows) rows (order_by-HeadFirst rows)
      (order_by-nonempty rows)

head-first :
    (sorted rows : List Run) (m : Run)
    → HeadFirst sorted rows
    → first_of_list sorted ≡ some m
    → NoneBefore m rows
head-first [] rows m h e = cc
head-first (x ∷ rest) rows m h e = rw (← some-injective x m e) h

-- The Run that ClaimQueuedRun selects is queued, and no queued Run is before it.
pub next_queued-first :
    (runs : List Run) (m : Run)
    → next_queued runs ≡ some m
    → All (λ r. queue_before r m ≡ false) (select_where (λ r. is_queued r.state) runs)
unfolding next_queued
next_queued-first runs m e =
    head-first _ _ m (order_by-HeadFirst (select_where (λ r. is_queued r.state) runs)) e

-- Each row of a table with distinct identifiers is the one found under its identifier.
rows-found :
    (runs : List Run)
    → ((id : Bytes) → count_where (has_id id) runs ≤ 1)
    → All (λ r. find_run r.id runs ≡ some r) runs
unfolding find_run has_id find_where count_where
rows-found [] one = tt
rows-found (y ∷ rows) one = (
  rw (beq_refl y.id) refl,
  All-map (λ (r : Run). find_run r.id rows ≡ some r)
      (λ (r : Run). find_run r.id (y ∷ rows) ≡ some r) rows
      (λ r h. elim (Bool-cases (beq y.id r.id)) [
        | inl e ↦
            let more =
              exists_where-count_pos (has_id r.id) rows
                (find_where-exists (has_id r.id) rows r h) in
            let few : (if beq y.id r.id then 1 else 0) + count_where (has_id r.id) rows ≤ 1 =
              one r.id in
            absurd (omega (arith, (rw e at few), more))
        | inr e ↦ rw e h
      ])
      (rows-found rows (λ id. let few = one id in omega arith)),
)

module _ (P : Run → Type 0) where
  select_where-All :
      (q : Run → Bool) (rows : List Run)
      → All P rows
      → All (λ r. P r × (q r ≡ true)) (select_where q rows)
  unfolding select_where
  select_where-All q [] h = tt
  select_where-All q (r ∷ rows) (h, hs) = elim (Bool-cases (q r)) [
    | inl e ↦ rw e ((h, e), select_where-All q rows hs)
    | inr e ↦ rw e (select_where-All q rows hs)
  ]

  insert_by-All :
      (r : Run) (rows : List Run) → P r → All P rows → All P (insert_by queue_before r rows)
  unfolding insert_by
  insert_by-All r [] h hs = (h, tt)
  insert_by-All r (y ∷ rows) h (k, ks) = elim (Bool-cases (queue_before y r)) [
    | inl e ↦ rw e (k, insert_by-All r rows h ks)
    | inr e ↦ rw e (h, (k, ks))
  ]

  order_by-All : (rows : List Run) → All P rows → All P (order_by queue_before rows)
  unfolding order_by
  order_by-All [] h = tt
  order_by-All (r ∷ rows) (h, hs) =
      insert_by-All r (order_by queue_before rows) h (order_by-All rows hs)

  head-All : (rows : List Run) (m : Run) → All P rows → first_of_list rows ≡ some m → P m
  head-All [] m h e = cc
  head-All (r ∷ rows) m (h, hs) e = rw (← some-injective r m e) h

-- The Run that ClaimQueuedRun selects is a queued row of the table.
pub next_queued-found :
    (runs : List Run) (m : Run)
    → ((id : Bytes) → count_where (has_id id) runs ≤ 1)
    → next_queued runs ≡ some m
    → (find_run m.id runs ≡ some m) × (is_queued m.state ≡ true)
unfolding next_queued
next_queued-found runs m one e =
    head-All (λ r. (find_run r.id runs ≡ some r) × (is_queued r.state ≡ true))
      (order_by queue_before (select_where (λ r. is_queued r.state) runs)) m
      (order_by-All _ (select_where (λ r. is_queued r.state) runs) (
        select_where-All (λ r. find_run r.id runs ≡ some r) (λ r. is_queued r.state) runs
          (rows-found runs one)))
      e
