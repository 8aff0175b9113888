-- ===== src/CoreStore/Invariant/Keys.antt =====
-- The tables sessions and inbound_event_horizons keep their primary keys.
use harness_security_gateway.Prelude.{
  ℕ, ◌+◌, ◌≤◌, ◌≡◌, inl, inr, Bool, List, [], ◌∷◌, arith, Bool-cases, if◌then◌else◌,
}
use harness_security_gateway.Prelude.Bytes.{Bytes, beq, beq→≡}
use harness_security_gateway.Prelude.Tables.{count_where, exists_where, delete_where}
use harness_security_gateway.Prelude.Tables.Laws.{count_where-not-exists, count_where-delete_le}
use harness_security_gateway.CoreStore.Types.{Session, SessionKey, Horizon}
use harness_security_gateway.CoreStore.Tables.{key_beq, put_session}
use harness_security_gateway.CoreStore.Tables.Scope.{key_beq→≡}
use harness_security_gateway.CoreStore.Evict.{advance_horizon}
use harness_security_gateway.CoreStore.Invariant.{HasKeys}

-- A session is put in the place of the one with its key, or after all others.
count_where-put_session :
    (x : Session) (k : SessionKey) (sessions : List Session)
    → count_where (λ s. key_beq s.key k) (put_session x sessions)
      ≡ count_where (λ s. key_beq s.key k) sessions
        + (if exists_where (λ s. key_beq s.key x.key) sessions
            then 0
            else if key_beq x.key k
            then 1
            else 0)
unfolding count_where put_session exists_where
count_where-put_session x k [] = omega arith
count_where-put_session x k (s ∷ sessions) = ground (arith, count_where-put_session x k sessions)

put_session-once :
    (x : Session) (sessions : List Session)
    → ((k : SessionKey) → count_where (λ s. key_beq s.key k) sessions ≤ 1)
    → (k : SessionKey) → count_where (λ s. key_beq s.key k) (put_session x sessions) ≤ 1
put_session-once x sessions once k =
    rw (count_where-put_session x k sessions)
      (elim (Bool-cases (exists_where (λ s. key_beq s.key x.key) sessions)) [
        | inl e ↦ rw e (omega (arith, once k))
        | inr none_before ↦ elim (Bool-cases (key_beq x.key k)) [
          | inl same ↦
              rw (none_before, same)
                (omega (
                  arith,
                  count_where-not-exists (λ s. key_beq s.key k) sessions
                      (rw (← key_beq→≡ x.key k same) none_before),
                ))
          | inr other ↦ rw (none_before, other) (omega (arith, once k))
        ]
      ])

count_where-advance_horizon :
    (c k : Bytes) (cutoff : ℕ) (horizons : List Horizon)
    → count_where (λ h. beq h.connector_id k) (advance_horizon c cutoff horizons)
      ≡ count_where (λ h. beq h.connector_id k) horizons
        + (if exists_where (λ h. beq h.connector_id c) horizons
            then 0
            else if beq c k
            then 1
            else 0)
unfolding count_where advance_horizon exists_where
count_where-advance_horizon c k cutoff [] = omega arith
count_where-advance_horizon c k cutoff (h ∷ horizons) =
    ground (arith, count_where-advance_horizon c k cutoff horizons)

advance_horizon-once :
    (c : Bytes) (cutoff : ℕ) (horizons : List Horizon)
    → ((k : Bytes) → count_where (λ h. beq h.connector_id k) horizons ≤ 1)
    → (k : Bytes) → count_where (λ h. beq h.connector_id k) (advance_horizon c cutoff horizons) ≤ 1
advance_horizon-once c cutoff horizons once k =
    rw (count_where-advance_horizon c k cutoff horizons)
      (elim (Bool-cases (exists_where (λ h. beq h.connector_id c) horizons)) [
        | inl e ↦ rw e (omega (arith, once k))
        | inr none_before ↦ elim (Bool-cases (beq c k)) [
          | inl same ↦
              rw (none_before, same)
                (omega (
                  arith,
                  count_where-not-exists (λ h. beq h.connector_id k) horizons
                      (rw (← beq→≡ c k same) none_before),
                ))
          | inr other ↦ rw (none_before, other) (omega (arith, once k))
        ]
      ])

module _ (sessions : List Session) (horizons : List Horizon) (h : HasKeys sessions horizons) where
  pub put_session-HasKeys : (x : Session) → HasKeys (put_session x sessions) horizons
  put_session-HasKeys x = record {
    of_sessions = put_session-once x sessions h.of_sessions;
    of_horizons = h.of_horizons;
  }

  pub advance_horizon-HasKeys :
      (c : Bytes) (cutoff : ℕ) → HasKeys sessions (advance_horizon c cutoff horizons)
  advance_horizon-HasKeys c cutoff = record {
    of_sessions = h.of_sessions;
    of_horizons = advance_horizon-once c cutoff horizons h.of_horizons;
  }

  pub delete_session-HasKeys : (q : Session → Bool) → HasKeys (delete_where q sessions) horizons
  delete_session-HasKeys q = record {
    of_sessions = λ k. omega (
      arith,
      count_where-delete_le (λ (s : Session). key_beq s.key k) q sessions,
      h.of_sessions k,
    );
    of_horizons = h.of_horizons;
  }
