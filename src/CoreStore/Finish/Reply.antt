-- ===== src/CoreStore/Finish/Reply.antt =====
-- The reply of FinishRun: inserted once, and accepted as it is from then on.

use harness_security_gateway.Prelude.{
  ℕ, ◌≡◌, refl, sym, ◌∙◌, ap, true, ◌&&◌, Option, none, some, List, arith,
}
use harness_security_gateway.Prelude.Bytes.{beq, beq_refl}
use harness_security_gateway.Prelude.Results.{ok, ok-injective, >>=-eq-ok}
use harness_security_gateway.Prelude.Tables.{find_where, insert_row}
use harness_security_gateway.Prelude.Tables.Laws.{find_where-insert, find_where-none}
use harness_security_gateway.CoreStore.Types.{
  AdmissionOptions, Run, TextDeliveryInput, Delivery, Db,
}
use harness_security_gateway.CoreStore.Outbox.{
  insert_delivery, insert_checked, has_delivery_id, delivers, new_delivery,
}
use harness_security_gateway.CoreStore.Finish.{insert_reply}

-- The row that an insertion adds, found by its identifier.
find-new :
    (run : Run) (input : TextDeliveryInput) (now : ℕ) (deliveries : List Delivery)
    → find_where (has_delivery_id input.id) deliveries ≡ none
    → find_where (has_delivery_id input.id) (insert_row (new_delivery run input now) deliveries)
      ≡ some (new_delivery run input now)
find-new run input now deliveries h =
    rw (find_where-insert, find_where-none _ deliveries h, beq_refl input.id) refl

-- A reply that is in the outbox is accepted as it is.
accepted_by_id :
    (options : AdmissionOptions) (run : Run) (input : TextDeliveryInput) (now : ℕ) (db : Db)
    (existing : Delivery)
    → find_where (has_delivery_id input.id) db.deliveries ≡ some existing
    → (beq existing.run_id run.id && beq existing.text input.text) ≡ true
    → insert_delivery options run input now db ≡ ok db.deliveries
unfolding insert_delivery insert_checked
accepted_by_id options run input now db existing found h = rw found (rw h refl)

accepted_by_run :
    (options : AdmissionOptions) (run : Run) (input : TextDeliveryInput) (now : ℕ) (db : Db)
    (existing : Delivery)
    → find_where (has_delivery_id input.id) db.deliveries ≡ none
    → find_where (delivers run.id) db.deliveries ≡ some existing
    → beq existing.text input.text ≡ true
    → insert_delivery options run input now db ≡ ok db.deliveries
unfolding insert_delivery insert_checked
accepted_by_run options run input now db existing unknown found h = rw (unknown, found) (rw h refl)

insert_delivery-again :
    (options : AdmissionOptions) (run run' : Run) (input : TextDeliveryInput) (now now' : ℕ)
    (db db' : Db)
    → run'.id ≡ run.id
    → insert_delivery options run input now db ≡ ok db'.deliveries
    → insert_delivery options run' input now' db' ≡ ok db'.deliveries
unfolding insert_delivery insert_checked
insert_delivery-again options run run' input now now' db db' same h =
    go (find_where (has_delivery_id input.id) db.deliveries)
      (find_where (delivers run.id) db.deliveries) refl refl h
  where
    go :
        (a b : Option Delivery)
        → find_where (has_delivery_id input.id) db.deliveries ≡ a
        → find_where (delivers run.id) db.deliveries ≡ b
        → insert_checked options run input now db a b ≡ ok db'.deliveries
        → insert_delivery options run' input now' db' ≡ ok db'.deliveries
    go (some e) b ea eb h =
        let kept : db'.deliveries ≡ db.deliveries = ground arith in
        accepted_by_id options run' input now' db' e (rw kept ea) (rw same (ground arith))
    go none (some e) ea eb h =
        let kept : db'.deliveries ≡ db.deliveries = ground arith in
        accepted_by_run options run' input now' db' e (rw kept ea) (rw (kept, same) eb)
          (ground arith)
    go none none ea eb h =
        let kept : db'.deliveries ≡ insert_row (new_delivery run input now) db.deliveries =
          ground arith in
        accepted_by_id options run' input now' db' (new_delivery run input now)
          (rw kept (find-new run input now db.deliveries ea))
          (rw same (ground (arith, beq_refl run.id, beq_refl input.text)))

pub insert_reply-again :
    (options : AdmissionOptions) (run run' : Run) (reply : Option TextDeliveryInput) (now now' : ℕ)
    (db db' : Db)
    → run'.id ≡ run.id
    → insert_reply options run reply now db ≡ ok db'
    → insert_reply options run' reply now' db' ≡ ok db'
unfolding insert_reply
insert_reply-again options run run' none now now' db db' same h = refl
insert_reply-again options run run' (some reply) now now' db db' same h =
    let (deliveries, inserted, made) = >>=-eq-ok (insert_delivery options run reply now db) _ h in
    let stored : deliveries ≡ db'.deliveries = ap (λ (d : Db). d.deliveries) (ok-injective made) in
    rw (insert_delivery-again options run run' reply now now' db db' same (inserted ∙ ap ok stored))
      refl

pub insert_reply-same_runs :
    (options : AdmissionOptions) (run : Run) (reply : Option TextDeliveryInput) (now : ℕ)
    (db db' : Db)
    → insert_reply options run reply now db ≡ ok db'
    → db'.runs ≡ db.runs
unfolding insert_reply
insert_reply-same_runs options run none now db db' h =
    ap (λ (d : Db). d.runs) (sym (ok-injective h))
insert_reply-same_runs options run (some reply) now db db' h =
    let (_, _, made) = >>=-eq-ok (insert_delivery options run reply now db) _ h in
    ap (λ (d : Db). d.runs) (sym (ok-injective made))
