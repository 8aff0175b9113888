-- ===== src/CoreStore/Scenarios/Delivery.antt =====
-- The reply of the scenario, leased and delivered.
use harness_security_gateway.Prelude.{suc, ◌≡◌, refl, none, some, [], ◌∷◌}
use harness_security_gateway.Prelude.Bytes.{codes, beq}
use harness_security_gateway.Prelude.Results.{ok}
use harness_security_gateway.Prelude.Tables.{find_where, exists_where, update_where}
use harness_security_gateway.Text.{valid_utf8, runes_of, any_of, is_space, is_control}
use harness_security_gateway.CoreStore.Types.{
  Delivery, leased, CompleteDeliveryInput, DeliveryOutcome, Db,
}
use harness_security_gateway.CoreStore.Validate.{
  now_millis, validate_identifier, validate_identifiers, validate_completion, validate_outcome,
}
use harness_security_gateway.CoreStore.Tables.{attempt, owned_by, run_of_connector}
use harness_security_gateway.CoreStore.Completion.{complete_delivery, complete_by_state, completion}
use harness_security_gateway.CoreStore.Completion.Repeat.{complete_delivery-repeats}
use harness_security_gateway.CoreStore.Scenarios.Work.{one_run}

abbrev row : Delivery
row = record {
  id = codes "out_1";
  run_id = codes "run_1";
  text = codes "hi";
  state = leased;
  lease_token = some (codes "l1");
  lease_expires_at = some 9031000;
  attempt_count = 1;
  available_at = 9000900;
  provider_message_ref = none;
  failure_code = none;
  created_at = 9000900;
  updated_at = 9001000;
}

abbrev replying : Db
replying = record one_run { deliveries = row ∷ [] }

abbrev outcome : CompleteDeliveryInput
outcome = record {
  connector_id = codes "discord";
  delivery_id = codes "out_1";
  lease_token = codes "l1";
  outcome = DeliveryOutcome.delivered;
  provider_message_ref = codes "m2";
  failure_code = none;
}

completed : (complete_delivery 1000000000 9001100 outcome replying).0 ≡ ok tt
unfolding complete_delivery attempt now_millis validate_completion validate_identifiers
    validate_identifier validate_outcome valid_utf8 runes_of any_of is_space is_control find_where
    owned_by run_of_connector exists_where beq complete_by_state completion update_where
completed = refl

complete_delivery-repeats_example :
    complete_delivery 1000000000
      (suc 9001199)
      outcome
      (complete_delivery 1000000000 9001100 outcome replying).1
    ≡ (ok tt, (complete_delivery 1000000000 9001100 outcome replying).1)
complete_delivery-repeats_example =
    complete_delivery-repeats 1000000000 9001100 9001199 outcome replying completed
