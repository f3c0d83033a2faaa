-- ===== src/Publication/Execution.antt =====
-- src/app_contracts/publication.py: `execute_publication` and `recover_publication`. The endpoint
-- is whatever the caller passes; its state stands for everything outside of the journal.
use agent00x.Prelude.{
  Text, text, Bool, true, false, ◌&&◌, not, Option, none, some, List, [], ◌∷◌, Kind, Result, ok,
  err, raise_if, ◌>>=◌, ◌>>◌, if◌then◌else◌, is_empty_text, Outcome,
}
use agent00x.ApprovalSignature.{has_all, restrict}
use agent00x.Host.{Host}
use agent00x.Publication.Journal.{
  PublicationRecord, Journal, Status, same_status, get_attempt, mark_attempting,
  mark_reconciliation_required,
}
use agent00x.Publication.Receipts.{Receipt, mark_completed}
use agent00x.Values.{is_bool, Value, str, Fields, get, has, is_name, as_dict}

-- `publish_pull_request` and `find_by_idempotency_key` of an endpoint with state `E`
pub record Endpoint (E : Type 0) : Type 0 where
  pub publish_pull_request : Fields → E → Outcome E Receipt
  pub find_by_idempotency_key : Text → Text → Text → E → Outcome E (Option Receipt)

abbrev pub boundary_fields : List Text
boundary_fields =
    text "operation"
    ∷ text "repository_id"
    ∷ text "branch"
    ∷ text "base_branch"
    ∷ text "staged_change_digest"
    ∷ text "idempotency_key"
    ∷ text "policy_effect"
    ∷ text "approval_valid"
    ∷ []

abbrev named_fields : List Text
named_fields =
    text "operation"
    ∷ text "repository_id"
    ∷ text "branch"
    ∷ text "base_branch"
    ∷ text "staged_change_digest"
    ∷ text "idempotency_key"
    ∷ text "policy_effect"
    ∷ []

unfoldable pub all_named : Fields → List Text → Bool
all_named d [] = true
all_named d (k ∷ ks) = is_name (get d k) && all_named d ks

-- The tests of `execute_publication` on the request.
unfoldable pub request_checks : Value → Result Fields
unfolding has_all all_named is_bool
request_checks request = do
  req ← as_dict request Kind.contract_validation (text "publication: request is malformed")
  raise_if (not (has req (text "process_id") && has_all req boundary_fields))
      Kind.contract_validation (text "publication: request is malformed")
  raise_if (not (all_named req named_fields)) Kind.contract_validation
      (text "publication: request value is invalid")
  raise_if (not (is_bool (get req (text "approval_valid")))) Kind.contract_validation
      (text "publication: request value is invalid")
  raise_if (not (is_name (get req (text "process_id")))) Kind.contract_validation
      (text "publication: request value is invalid")
  ok req

-- The request and the row of a publication that may start.
unfoldable pub startable : Value → Journal → Result (Fields × PublicationRecord)
unfolding request_checks get_attempt same_status
startable request rows = do
  req ← request_checks request
  row ← get_attempt (get req (text "process_id")) rows
  raise_if (not (same_status row.status Status.prepared)) Kind.value_error
      (text "publication is not prepared")
  ok (req, row)

module _ (host : Host) {E : Type 0} (endpoint : Endpoint E) where
  -- The receipt that was returned is written to the journal.
  unfoldable pub keep_receipt : Text → Receipt → Journal → E → Outcome (Journal × E) Receipt
  unfolding mark_completed
  keep_receipt pid receipt rows e =
      let (marked, rows') = mark_completed host (str pid) receipt rows in
      (elim marked [ ok _ ↦ ok receipt | err k m ↦ err k m ], (rows', e))

  -- What follows the answer of the endpoint.
  unfoldable pub after_answer :
      Bool → Text → Journal → Outcome E Receipt → Outcome (Journal × E) Receipt
  unfolding keep_receipt
  after_answer crash pid rows (err k m, e) = (err k m, (rows, e))
  after_answer true pid rows (ok receipt, e) = (
    err Kind.simulated_crash (text "crash after external effect before local receipt"),
    (rows, e),
  )
  after_answer false pid rows (ok receipt, e) = keep_receipt pid receipt rows e

  -- From `endpoint.publish_pull_request` on.
  unfoldable pub publish : Bool → Fields → Text → Journal → E → Outcome (Journal × E) Receipt
  unfolding after_answer restrict
  publish crash req pid rows e =
      after_answer crash pid rows (endpoint.publish_pull_request (restrict req boundary_fields) e)

  -- What follows `before_publish()`.
  unfoldable pub after_hook :
      Bool → Fields → Text → Journal → Outcome E (Unit {0}) → Outcome (Journal × E) Receipt
  unfolding publish
  after_hook crash req pid rows (err k m, e) = (err k m, (rows, e))
  after_hook crash req pid rows (ok _, e) = publish crash req pid rows e

  -- From `before_publish` on.
  unfoldable pub publish_after :
      Option (E → Outcome E (Unit {0}))
      → Bool
      → Fields
      → Text
      → Journal
      → E
      → Outcome (Journal × E) Receipt
  unfolding publish after_hook
  publish_after none crash req pid rows e = publish crash req pid rows e
  publish_after (some before) crash req pid rows e = after_hook crash req pid rows (before e)

  -- What follows `journal.mark_attempting`.
  unfoldable pub after_marking :
      Option (E → Outcome E (Unit {0}))
      → Bool
      → Fields
      → Text
      → E
      → Outcome Journal (Unit {0})
      → Outcome (Journal × E) Receipt
  unfolding publish_after
  after_marking before crash req pid e (err k m, rows) = (err k m, (rows, e))
  after_marking before crash req pid e (ok _, rows) = publish_after before crash req pid rows e

  -- `execute_publication`
  unfoldable pub execute_publication :
      Option (E → Outcome E (Unit {0})) → Bool → Value → Journal × E → Outcome (Journal × E) Receipt
  unfolding startable mark_attempting after_marking
  execute_publication before crash request (rows, e) = elim (startable request rows) [
    | err k m ↦ (err k m, (rows, e))
    | ok found ↦
        after_marking before crash found.0 found.1.process_id e
          (mark_attempting (str found.1.process_id) rows)
  ]

  recovery_required : Result PublicationRecord
  recovery_required = err Kind.recovery_required (text "publication recovery required")

  -- `journal.mark_reconciliation_required(…)`, and the exception after it
  unfoldable pub give_up : Value → Journal → E → Outcome (Journal × E) PublicationRecord
  unfolding mark_reconciliation_required recovery_required
  give_up process_id rows e =
      let (marked, rows') = mark_reconciliation_required process_id rows in
      (elim marked [ ok _ ↦ recovery_required | err k m ↦ err k m ], (rows', e))

  -- What `recover_publication` does with the answer of the endpoint.
  unfoldable pub settle :
      Value → Journal → Outcome E (Option Receipt) → Outcome (Journal × E) PublicationRecord
  unfolding give_up mark_completed get_attempt
  settle process_id rows (err k m, e) = (err k m, (rows, e))
  settle process_id rows (ok none, e) = give_up process_id rows e
  settle process_id rows (ok (some receipt), e) =
      let (marked, rows') = mark_completed host process_id receipt rows in
      (elim marked [ ok _ ↦ get_attempt process_id rows' | err k m ↦ err k m ], (rows', e))

  -- `if not record.base_branch`, and the query
  unfoldable pub recover_attempting :
      Value
      → PublicationRecord
      → Option Text
      → Journal
      → E
      → Outcome (Journal × E) PublicationRecord
  unfolding give_up settle
  recover_attempting process_id row none rows e = give_up process_id rows e
  recover_attempting process_id row (some base) rows e =
      if is_empty_text base
      then give_up process_id rows e
      else settle process_id rows
          (endpoint.find_by_idempotency_key row.idempotency_key row.repository_id base e)

  unfoldable pub recover_row :
      Status → Value → PublicationRecord → Journal → E → Outcome (Journal × E) PublicationRecord
  unfolding recover_attempting recovery_required
  recover_row Status.completed process_id row rows e = (ok row, (rows, e))
  recover_row Status.prepared process_id row rows e = (ok row, (rows, e))
  recover_row Status.attempting process_id row rows e =
      recover_attempting process_id row row.base_branch rows e
  recover_row Status.reconciliation_required process_id row rows e = (recovery_required, (rows, e))

  -- `recover_publication`
  unfoldable pub recover_publication : Value → Journal × E → Outcome (Journal × E) PublicationRecord
  unfolding recover_row get_attempt
  recover_publication process_id (rows, e) = elim (get_attempt process_id rows) [
    | err k m ↦ (err k m, (rows, e))
    | ok row ↦ recover_row row.status process_id row rows e
  ]
