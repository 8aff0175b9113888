-- ===== src/CoreStore/Trace/WellFormed.antt =====
-- Every database that the operations reach from an empty one is well-formed.
use harness_security_gateway.Prelude.{List, [], ◌∷◌, arith}
use harness_security_gateway.CoreStore.Types.{Db, empty_db}
use harness_security_gateway.CoreStore.Trace.{
  Op, Options, step, run_ops, ingest, claim_run, prepare_start, mark_running, finish,
  claim_deliveries, complete, reset,
}
use harness_security_gateway.Prelude.Tables.{count_where}
use harness_security_gateway.CoreStore.Invariant.{IsWellFormed}
use harness_security_gateway.CoreStore.Invariant.Preserved.{ingest_text_run-IsWellFormed}
use harness_security_gateway.CoreStore.Invariant.PreservedRuns.{
  claim_queued_run-IsWellFormed, prepare_run_start-IsWellFormed, mark_run_running-IsWellFormed,
  finish_run-IsWellFormed,
}
use harness_security_gateway.CoreStore.Invariant.PreservedOutbox.{
  claim_text_deliveries-IsWellFormed, complete_delivery-IsWellFormed, reset_session-IsWellFormed,
}

-- Every operation, in success and in failure, keeps a well-formed database.
pub step-IsWellFormed :
    (o : Options) (op : Op) (db : Db) → IsWellFormed db → IsWellFormed (step o op db)
unfolding step
step-IsWellFormed o (ingest clock pages input authorize new_run_id) db w =
    (ingest_text_run-IsWellFormed o.admission clock pages input authorize new_run_id db w).after
step-IsWellFormed o (claim_run lease clock new_token) db w =
    (claim_queued_run-IsWellFormed lease clock new_token db w).after
step-IsWellFormed o (prepare_start clock input) db w =
    (prepare_run_start-IsWellFormed clock input db w).after
step-IsWellFormed o (mark_running clock run_id token) db w =
    (mark_run_running-IsWellFormed clock run_id token db w).after
step-IsWellFormed o (finish clock input reply) db w =
    (finish_run-IsWellFormed o.admission clock input reply db w).after
step-IsWellFormed o (claim_deliveries connector limit lease clock tokens) db w =
    (claim_text_deliveries-IsWellFormed connector limit lease clock tokens db w).after
step-IsWellFormed o (complete clock input) db w =
    (complete_delivery-IsWellFormed o.retry_delay clock input db w).after
step-IsWellFormed o (reset key expected) db w = (reset_session-IsWellFormed key expected db w).after

pub run_ops-IsWellFormed :
    (o : Options) (ops : List Op) (db : Db) → IsWellFormed db → IsWellFormed (run_ops o ops db)
unfolding run_ops
run_ops-IsWellFormed o [] db w = w
run_ops-IsWellFormed o (op ∷ ops) db w =
    run_ops-IsWellFormed o ops (step o op db) (step-IsWellFormed o op db w)

pub empty_db-IsWellFormed : IsWellFormed empty_db
unfolding count_where
empty_db-IsWellFormed = omega arith

-- Whatever operations a store performs, in whatever order and with whatever inputs, clock readings
-- and answers of the callbacks, the database that it reaches from an empty one is well-formed: the
-- CHECK constraints that relate columns of a Run or of a delivery hold (those on a single column are
-- not part of it), the primary keys and unique indexes of all five tables and the foreign keys hold, at
-- most one Run is dispatching or running, and at most one Run of each session scope is
-- queued, dispatching or running.
pub reachable-IsWellFormed : (o : Options) (ops : List Op) → IsWellFormed (run_ops o ops empty_db)
reachable-IsWellFormed o ops = run_ops-IsWellFormed o ops empty_db empty_db-IsWellFormed
