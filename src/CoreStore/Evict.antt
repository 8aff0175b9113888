-- ===== src/CoreStore/Evict.antt =====
-- evictInboundReceipts of internal/corestore/runs.go: the replay horizon and what it compacts.
use harness_security_gateway.Prelude.{
  ℕ, ◌-◌, ◌*◌, ◌/◌, Bool, true, false, not, ◌&&◌, List, [], ◌∷◌, ltb, leb, if◌then◌else◌,
}
use harness_security_gateway.Prelude.Bytes.{Bytes, beq}
use harness_security_gateway.Prelude.Tables.{exists_where, delete_where}
use harness_security_gateway.CoreStore.Types.{
  AdmissionOptions, Run, Receipt, Horizon, Delivery, DeliveryState, pending, leased, delivered,
  permanent_failed, Db, is_terminal,
}
use harness_security_gateway.CoreStore.Options.{millisecond}

-- INSERT ... ON CONFLICT(connector_id) DO UPDATE ... WHERE excluded is greater.
unfoldable pub advance_horizon : Bytes → ℕ → List Horizon → List Horizon
advance_horizon connector cutoff [] =
    record { connector_id = connector; evicted_through = cutoff } ∷ []
advance_horizon connector cutoff (h ∷ rest) =
    if beq h.connector_id connector
    then record h {
      evicted_through = if ltb h.evicted_through cutoff then cutoff else h.evicted_through;
    }
      ∷ rest
    else h ∷ advance_horizon connector cutoff rest

-- The horizon of a connector; it is 0 before the first event, when there is no row.
unfoldable pub horizon_of : Bytes → List Horizon → ℕ
horizon_of connector [] = 0
horizon_of connector (h ∷ rest) =
    if beq h.connector_id connector then h.evicted_through else horizon_of connector rest

-- now - window, in milliseconds, and 0 where that is negative.
abbrev pub cutoff_of : ℕ → ℕ → ℕ
cutoff_of now window = (now * millisecond - window) / millisecond

unfoldable pub evictable : Bytes → ℕ → Receipt → Bool
evictable connector horizon r = beq r.connector_id connector && leb r.occurred_at horizon

-- state IN ('delivered', 'permanent_failed')
abbrev pub is_settled : DeliveryState → Bool
is_settled delivered = true
is_settled permanent_failed = true
is_settled _ = false

-- state IN ('pending', 'leased')
abbrev pub is_outstanding : DeliveryState → Bool
is_outstanding pending = true
is_outstanding leased = true
is_outstanding _ = false

-- A terminal Run of the connector that no receipt refers to any more.
unfoldable pub forgotten : Bytes → List Receipt → Run → Bool
forgotten connector receipts r =
    beq r.connector_id connector
    && is_terminal r.state
    && not (exists_where (λ i. beq i.run_id r.id) receipts)

unfoldable pub compactable_delivery : Bytes → List Receipt → List Run → Delivery → Bool
unfolding forgotten
compactable_delivery connector receipts runs d =
    is_settled d.state
    && exists_where (λ r. beq r.id d.run_id && forgotten connector receipts r) runs

unfoldable pub compactable_run : Bytes → List Receipt → List Delivery → Run → Bool
unfolding forgotten
compactable_run connector receipts deliveries r =
    forgotten connector receipts r && not (exists_where (λ d. beq d.run_id r.id) deliveries)

-- evictInboundReceipts: the horizon that it returns is that of the connector in the new database.
unfoldable pub evict_inbound_receipts : AdmissionOptions → Bytes → ℕ → Db → Db
unfolding evictable compactable_delivery compactable_run
evict_inbound_receipts options connector now db =
    let horizons = advance_horizon connector (cutoff_of now options.receipt_window) db.horizons in
    let receipts = delete_where (evictable connector (horizon_of connector horizons)) db.receipts in
    let deliveries = delete_where (compactable_delivery connector receipts db.runs) db.deliveries in
    record db {
      horizons = horizons;
      receipts = receipts;
      deliveries = deliveries;
      runs = delete_where (compactable_run connector receipts deliveries) db.runs;
    }
