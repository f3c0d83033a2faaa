-- ===== src/Publication/Payments.antt =====
-- Each call of `publish_pull_request` that the publication functions make spends an attempt.
use agent00x.Prelude.{
  inl, inr, Result-cases, ℕ, suc, ◌+◌, ◌≤◌, Text, Bool, true, false, Option, none, some, ok, err,
  ◌≡◌, refl, arith, Outcome,
}
use agent00x.ApprovalSignature.{restrict}
use agent00x.Host.{Host}
use agent00x.Publication.Counting.{
  mark_attempting-spent_le, cost_of, spent, mark_attempting-spent, set_status-spent,
  mark_completed-spent,
}
use agent00x.Publication.Execution.{
  after_answer, after_hook, after_marking, boundary_fields, Endpoint, keep_receipt, publish,
  publish_after, execute_publication, give_up, settle, recover_attempting, recover_row,
  recover_publication, startable,
}
use agent00x.Publication.Journal.{
  PublicationRecord, Journal, Status, get_attempt, mark_attempting, mark_reconciliation_required,
}
use agent00x.Publication.Receipts.{Receipt, mark_completed}
use agent00x.Values.{Value, str, Fields}

module _ {E : Type 0} where
  -- The endpoint with a count of the calls of `publish_pull_request`.
  abbrev pub counted : Endpoint E → Endpoint (ℕ × E)
  counted endpoint = record {
    publish_pull_request =
        λ req s. let (answer, e) = endpoint.publish_pull_request req s.1 in (answer, (suc s.0, e));
    find_by_idempotency_key = λ key repository base s.
        let (answer, e) = endpoint.find_by_idempotency_key key repository base s.1 in
        (answer, (s.0, e));
  }

  -- `before_publish` does not call the endpoint.
  abbrev pub uncounted :
      Option (E → Outcome E (Unit {0})) → Option (ℕ × E → Outcome (ℕ × E) (Unit {0}))
  uncounted none = none
  uncounted (some before) = some (λ s. let (done, e) = before s.1 in (done, (s.0, e)))

  -- Each call of `publish_pull_request` spends an attempt.
  abbrev pub Pays : Journal × (ℕ × E) → Journal × (ℕ × E) → Type 0
  Pays w w' = w'.1.0 + spent w.0 ≤ w.1.0 + spent w'.0

  module _ (host : Host) (endpoint : Endpoint E) where
    keep_receipt-Pays :
        (pid : Text) (receipt : Receipt) (rows : Journal) (s : ℕ × E)
        → Pays (rows, s) (keep_receipt host (counted endpoint) pid receipt rows s).1
    unfolding keep_receipt mark_completed
    keep_receipt-Pays pid receipt rows s =
        ground (arith, mark_completed-spent host (str pid) receipt Status.attempting rows)

    after_answer-Pays :
        (crash : Bool) (pid : Text) (rows : Journal) (answer : Outcome (ℕ × E) Receipt)
        → Pays (rows, answer.1) (after_answer host (counted endpoint) crash pid rows answer).1
    unfolding after_answer
    after_answer-Pays crash pid rows (err k m, s) = omega arith
    after_answer-Pays true pid rows (ok receipt, s) = omega arith
    after_answer-Pays false pid rows (ok receipt, s) = keep_receipt-Pays pid receipt rows s

    publish-Pays :
        (crash : Bool) (req : Fields) (pid : Text) (rows : Journal) (n : ℕ) (e : E)
        → Pays (rows, (suc n, e)) (publish host (counted endpoint) crash req pid rows (n, e)).1
    unfolding publish
    publish-Pays crash req pid rows n e =
        after_answer-Pays crash pid rows
          ((counted endpoint).publish_pull_request (restrict req boundary_fields) (n, e))

    after_hook-Pays :
        (crash : Bool) (req : Fields) (pid : Text) (rows : Journal) (n : ℕ)
        (done : Outcome E (Unit {0}))
        → Pays
            (rows, (suc n, done.1))
            (after_hook host (counted endpoint) crash req pid rows (done.0, (n, done.1))).1
    unfolding after_hook
    after_hook-Pays crash req pid rows n (err k m, e) = omega arith
    after_hook-Pays crash req pid rows n (ok _, e) = publish-Pays crash req pid rows n e

    publish_after-Pays :
        (before : Option (E → Outcome E (Unit {0}))) (crash : Bool) (req : Fields) (pid : Text)
        (rows : Journal) (n : ℕ) (e : E)
        → Pays
            (rows, (suc n, e))
            (publish_after host (counted endpoint) (uncounted before) crash req pid rows (n, e)).1
    unfolding publish_after
    publish_after-Pays none crash req pid rows n e = publish-Pays crash req pid rows n e
    publish_after-Pays (some before) crash req pid rows n e =
        after_hook-Pays crash req pid rows n (before e)

    after_marking-Pays :
        (before : Option (E → Outcome E (Unit {0}))) (crash : Bool) (req : Fields) (pid : Text)
        (rows : Journal) (s : ℕ × E) (marking : Outcome Journal (Unit {0}))
        → (spent rows ≤ spent marking.1)
        → (marking.0 ≡ ok tt → suc (spent rows) ≤ spent marking.1)
        → Pays
            (rows, s)
            (after_marking host (counted endpoint) (uncounted before) crash req pid s marking).1
    unfolding after_marking
    after_marking-Pays before crash req pid rows s (err k m, rows') kept more = omega arith
    after_marking-Pays before crash req pid rows s (ok tt, rows') kept more =
        omega (arith, more refl, publish_after-Pays before crash req pid rows' s.0 s.1)

    pub execute-Pays :
        (before : Option (E → Outcome E (Unit {0}))) (crash : Bool) (request : Value)
        (w : Journal × (ℕ × E))
        → Pays w (execute_publication host (counted endpoint) (uncounted before) crash request w).1
    unfolding execute_publication
    execute-Pays before crash request (rows, s) = elim (Result-cases (startable request rows)) [
      | inl found ↦ rw (execute_publication, found.1) (started found.0.0 found.0.1)
      | inr raised ↦ let (k, m, e) = raised in rw (execute_publication, e) (omega arith)
    ]
      where
        started :
            (req : Fields) (row : PublicationRecord)
            → Pays
                (rows, s)
                (after_marking host
                  (counted endpoint)
                  (uncounted before)
                  crash
                  req
                  row.process_id
                  s
                  (mark_attempting (str row.process_id) rows)).1
        started req row =
            after_marking-Pays before crash req row.process_id rows s
              (mark_attempting (str row.process_id) rows)
              (mark_attempting-spent_le (str row.process_id) rows)
              (mark_attempting-spent (str row.process_id) rows)

    give_up-Pays :
        (v : Value) (rows : Journal) (s : ℕ × E)
        → Pays (rows, s) (give_up host (counted endpoint) v rows s).1
    unfolding give_up mark_reconciliation_required cost_of
    give_up-Pays v rows s =
        omega (arith, set_status-spent v Status.attempting Status.reconciliation_required rows refl)

    settle-Pays :
        (v : Value) (rows : Journal) (answer : Outcome (ℕ × E) (Option Receipt))
        → Pays (rows, answer.1) (settle host (counted endpoint) v rows answer).1
    unfolding settle mark_completed
    settle-Pays v rows (err k m, s) = omega arith
    settle-Pays v rows (ok none, s) = give_up-Pays v rows s
    settle-Pays v rows (ok (some receipt), s) =
        omega (arith, mark_completed-spent host v receipt Status.attempting rows)

    recover_attempting-Pays :
        (v : Value) (row : PublicationRecord) (base : Option Text) (rows : Journal) (s : ℕ × E)
        → Pays (rows, s) (recover_attempting host (counted endpoint) v row base rows s).1
    unfolding recover_attempting
    recover_attempting-Pays v row none rows s = give_up-Pays v rows s
    recover_attempting-Pays v row (some base) rows s = ground (
      arith,
      give_up-Pays v rows s,
      settle-Pays v rows
          ((counted endpoint).find_by_idempotency_key row.idempotency_key row.repository_id base s),
    )

    recover_row-Pays :
        (status : Status) (v : Value) (row : PublicationRecord) (rows : Journal) (s : ℕ × E)
        → Pays (rows, s) (recover_row host (counted endpoint) status v row rows s).1
    unfolding recover_row
    recover_row-Pays Status.completed v row rows s = omega arith
    recover_row-Pays Status.prepared v row rows s = omega arith
    recover_row-Pays Status.attempting v row rows s =
        recover_attempting-Pays v row row.base_branch rows s
    recover_row-Pays Status.reconciliation_required v row rows s = omega arith

    pub recover-Pays :
        (v : Value) (w : Journal × (ℕ × E))
        → Pays w (recover_publication host (counted endpoint) v w).1
    unfolding recover_publication
    recover-Pays v (rows, s) = elim (Result-cases (get_attempt v rows)) [
      | inl found ↦
          rw (recover_publication, found.1) (recover_row-Pays found.0.status v found.0 rows s)
      | inr raised ↦ let (k, m, e) = raised in rw (recover_publication, e) (omega arith)
    ]
