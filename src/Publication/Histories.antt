-- ===== src/Publication/Histories.antt =====
-- What becomes of the rows of a journal over any sequence of calls.
use agent00x.Prelude.{
  inr, Result-cases, inl, Text, Bool, true, false, Option, none, some, [], ◌∷◌, ok, err, refl,
  Outcome,
}
use agent00x.ApprovalSignature.{restrict}
use agent00x.Host.{Host}
use agent00x.Publication.Execution.{
  Endpoint, keep_receipt, publish, publish_after, execute_publication, give_up, settle,
  recover_attempting, recover_row, recover_publication, startable, after_answer, after_hook,
  after_marking, boundary_fields,
}
use agent00x.Publication.Journal.{PublicationRecord, Journal, Status, get_attempt, mark_attempting}
use agent00x.Publication.Lifecycle.{Later, Later-refl, Later-trans}
use agent00x.Publication.Receipts.{Receipt, mark_completed}
use agent00x.Publication.Updates.{
  mark_attempting-Later, mark_reconciliation_required-Later, complete_attempt-Later,
}
use agent00x.Values.{Value, str, Fields}

module _ {E : Type 0} (host : Host) (endpoint : Endpoint E) where
  mark_completed-Later :
      (v : Value) (receipt : Receipt) (rows : Journal)
      → Later host rows (mark_completed host v receipt rows).1
  unfolding mark_completed
  mark_completed-Later v receipt rows =
      complete_attempt-Later host v receipt Status.attempting rows (inl refl)

  after_answer-Later :
      (crash : Bool) (pid : Text) (rows : Journal) (answer : Outcome E Receipt)
      → Later host rows (after_answer host endpoint crash pid rows answer).1.0
  unfolding after_answer keep_receipt
  after_answer-Later crash pid rows (err k m, e) = Later-refl host rows
  after_answer-Later true pid rows (ok receipt, e) = Later-refl host rows
  after_answer-Later false pid rows (ok receipt, e) = mark_completed-Later (str pid) receipt rows

  publish-Later :
      (crash : Bool) (req : Fields) (pid : Text) (rows : Journal) (e : E)
      → Later host rows (publish host endpoint crash req pid rows e).1.0
  unfolding publish
  publish-Later crash req pid rows e =
      after_answer-Later crash pid rows
        (endpoint.publish_pull_request (restrict req boundary_fields) e)

  after_hook-Later :
      (crash : Bool) (req : Fields) (pid : Text) (rows : Journal) (done : Outcome E (Unit {0}))
      → Later host rows (after_hook host endpoint crash req pid rows done).1.0
  unfolding after_hook
  after_hook-Later crash req pid rows (err k m, e) = Later-refl host rows
  after_hook-Later crash req pid rows (ok _, e) = publish-Later crash req pid rows e

  publish_after-Later :
      (before : Option (E → Outcome E (Unit {0}))) (crash : Bool) (req : Fields) (pid : Text)
      (rows : Journal) (e : E)
      → Later host rows (publish_after host endpoint before crash req pid rows e).1.0
  unfolding publish_after
  publish_after-Later none crash req pid rows e = publish-Later crash req pid rows e
  publish_after-Later (some before) crash req pid rows e =
      after_hook-Later crash req pid rows (before e)

  after_marking-Later :
      (before : Option (E → Outcome E (Unit {0}))) (crash : Bool) (req : Fields) (pid : Text)
      (e : E) (marking : Outcome Journal (Unit {0}))
      → Later host marking.1 (after_marking host endpoint before crash req pid e marking).1.0
  unfolding after_marking
  after_marking-Later before crash req pid e (err k m, rows) = Later-refl host rows
  after_marking-Later before crash req pid e (ok _, rows) =
      publish_after-Later before crash req pid rows e

  pub execute-Later :
      (before : Option (E → Outcome E (Unit {0}))) (crash : Bool) (request : Value)
      (w : Journal × E)
      → Later host w.0 (execute_publication host endpoint before crash request w).1.0
  unfolding execute_publication
  execute-Later before crash request (rows, e) = elim (Result-cases (startable request rows)) [
    | inl found ↦ rw (execute_publication, found.1) (started found.0.0 found.0.1)
    | inr raised ↦ let (k, m, h) = raised in rw (execute_publication, h) (Later-refl host rows)
  ]
    where
      started :
          (req : Fields) (row : PublicationRecord)
          → Later host rows
              (after_marking host endpoint before crash req row.process_id e
                (mark_attempting (str row.process_id) rows)).1.0
      started req row =
          Later-trans host _ _ _ (mark_attempting-Later host (str row.process_id) rows) (
            after_marking-Later before crash req row.process_id e
              (mark_attempting (str row.process_id) rows))

  give_up-Later :
      (v : Value) (rows : Journal) (e : E) → Later host rows (give_up host endpoint v rows e).1.0
  unfolding give_up
  give_up-Later v rows e = mark_reconciliation_required-Later host v rows

  settle-Later :
      (v : Value) (rows : Journal) (answer : Outcome E (Option Receipt))
      → Later host rows (settle host endpoint v rows answer).1.0
  unfolding settle
  settle-Later v rows (err k m, e) = Later-refl host rows
  settle-Later v rows (ok none, e) = give_up-Later v rows e
  settle-Later v rows (ok (some receipt), e) = mark_completed-Later v receipt rows

  recover_attempting-Later :
      (v : Value) (row : PublicationRecord) (base : Option Text) (rows : Journal) (e : E)
      → Later host rows (recover_attempting host endpoint v row base rows e).1.0
  unfolding recover_attempting
  recover_attempting-Later v row none rows e = give_up-Later v rows e
  recover_attempting-Later v row (some []) rows e = give_up-Later v rows e
  recover_attempting-Later v row (some (c ∷ base)) rows e =
      settle-Later v rows
        (endpoint.find_by_idempotency_key row.idempotency_key row.repository_id (c ∷ base) e)

  recover_row-Later :
      (status : Status) (v : Value) (row : PublicationRecord) (rows : Journal) (e : E)
      → Later host rows (recover_row host endpoint status v row rows e).1.0
  unfolding recover_row
  recover_row-Later Status.completed v row rows e = Later-refl host rows
  recover_row-Later Status.prepared v row rows e = Later-refl host rows
  recover_row-Later Status.attempting v row rows e =
      recover_attempting-Later v row row.base_branch rows e
  recover_row-Later Status.reconciliation_required v row rows e = Later-refl host rows

  pub recover-Later :
      (v : Value) (w : Journal × E) → Later host w.0 (recover_publication host endpoint v w).1.0
  unfolding recover_publication
  recover-Later v (rows, e) = elim (Result-cases (get_attempt v rows)) [
    | inl found ↦
        rw (recover_publication, found.1) (recover_row-Later found.0.status v found.0 rows e)
    | inr raised ↦ let (k, m, h) = raised in rw (recover_publication, h) (Later-refl host rows)
  ]
