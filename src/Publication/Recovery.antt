-- ===== src/Publication/Recovery.antt =====
-- A recovery after a crash between the external effect and its receipt.
use mathlib.Core.Path.{subst}
use agent00x.Prelude.{
  sym, ap, ◌∙◌, Text, true, false, Option, some, Result, ok, err, ◌≡◌, refl, is_empty_text, Outcome,
}
use agent00x.Host.{Host}
use agent00x.Publication.Execution.{
  Endpoint, settle, recover_attempting, recover_row, recover_publication,
}
use agent00x.Publication.Journal.{
  PublicationRecord, Journal, Status, same_status, find_attempt, process_of, get_attempt,
  update_attempt,
}
use agent00x.Publication.Receipts.{
  Receipt, Receipted, check_receipt, completed_row, completion, complete_attempt, mark_completed,
}
use agent00x.Tables.{replace, find-replace_self, find-key}
use agent00x.Values.{Value, str, is_name, text_of}

module _ {E : Type 0} (host : Host) (endpoint : Endpoint E) where
  get_attempt-named :
      (pid : Text) (rows : Journal) (row : PublicationRecord)
      → is_empty_text pid ≡ false
      → find_attempt pid rows ≡ some row
      → get_attempt (str pid) rows ≡ ok row
  unfolding get_attempt is_name text_of
  get_attempt-named pid rows row named at = rw (get_attempt, named, at) refl

  completion-ok :
      (v : Value) (rows : Journal) (row : PublicationRecord) (receipt : Receipt)
      (receipted : Receipted)
      → get_attempt v rows ≡ ok row
      → same_status row.status Status.attempting ≡ true
      → check_receipt host row receipt ≡ ok receipted
      → completion host v receipt Status.attempting rows ≡ ok (row, receipted)
  unfolding completion
  completion-ok v rows row receipt receipted got was checked =
      rw (completion, got, was, checked) refl

  mark_completed-ok :
      (v : Value) (rows : Journal) (row : PublicationRecord) (receipt : Receipt)
      (receipted : Receipted)
      → get_attempt v rows ≡ ok row
      → find_attempt row.process_id rows ≡ some row
      → same_status row.status Status.attempting ≡ true
      → check_receipt host row receipt ≡ ok receipted
      → mark_completed host v receipt rows
        ≡ (ok tt, replace process_of row.process_id (completed_row receipted row) rows)
  unfolding mark_completed complete_attempt update_attempt
  mark_completed-ok v rows row receipt receipted got at was checked =
      rw
        (
          mark_completed,
          complete_attempt,
          completion-ok v rows row receipt receipted got was checked,
          update_attempt,
          at,
          was,
        )
        refl

  attempting_is : same_status Status.attempting Status.attempting ≡ true
  unfolding same_status
  attempting_is = refl

  found_under :
      (k pid : Text) (rows : Journal) (row : PublicationRecord)
      → k ≡ pid
      → find_attempt k rows ≡ some row
      → find_attempt pid rows ≡ some row
  found_under k pid rows row same at = subst (λ p. find_attempt p rows ≡ some row) same at

  completed_row-process :
      (receipted : Receipted) (row : PublicationRecord)
      → (completed_row receipted row).process_id ≡ row.process_id
  unfolding completed_row
  completed_row-process receipted row = refl

  -- What the recovered process finds and leaves.
  settle-completes :
      (pid : Text) (rows : Journal) (row : PublicationRecord) (receipt : Receipt)
      (receipted : Receipted) (e : E)
      → is_empty_text pid ≡ false
      → find_attempt pid rows ≡ some row
      → row.status ≡ Status.attempting
      → check_receipt host row receipt ≡ ok receipted
      → settle host endpoint (str pid) rows (ok (some receipt), e) ≡ (
        ok (completed_row receipted row),
        (replace process_of row.process_id (completed_row receipted row) rows, e),
      )
  unfolding settle
  settle-completes pid rows row receipt receipted e named at was checked =
      ap after marked ∙ ap leave read
    where
      after : Outcome Journal (Unit {0}) → Outcome (Journal × E) PublicationRecord
      after o = (
        elim o.0 as (λ _. Result PublicationRecord) [
          | ok _ ↦ get_attempt (str pid) o.1
          | err k m ↦ err k m
        ],
        (o.1, e),
      )

      leave : Result PublicationRecord → Outcome (Journal × E) PublicationRecord
      leave r = (r, (replace process_of row.process_id (completed_row receipted row) rows, e))

      here : row.process_id ≡ pid
      here = find-key process_of pid rows row at

      marked :
          mark_completed host (str pid) receipt rows
          ≡ (ok tt, replace process_of row.process_id (completed_row receipted row) rows)
      marked =
          mark_completed-ok (str pid) rows row receipt receipted
            (get_attempt-named pid rows row named at)
            (found_under pid row.process_id rows row (sym here) at)
            (ap (λ s. same_status s Status.attempting) was ∙ attempting_is) checked

      read :
          get_attempt
            (str pid)
            (replace process_of row.process_id (completed_row receipted row) rows)
          ≡ ok (completed_row receipted row)
      read = get_attempt-named pid _ (completed_row receipted row) named (
          found_under row.process_id pid _ (completed_row receipted row) here (
            find-replace_self process_of row.process_id (completed_row receipted row) row rows
              (completed_row-process receipted row)
              (found_under pid row.process_id rows row (sym here) at)))

  -- A process that crashed between the effect and its receipt is recovered: where its attempt is
  -- `attempting` with a base branch, and the endpoint finds a receipt that matches it, recovery
  -- returns the attempt completed with that receipt, stores it, and does not publish.
  pub recover-completes :
      (pid : Text) (rows : Journal) (row : PublicationRecord) (base : Text) (receipt : Receipt)
      (receipted : Receipted) (e e' : E)
      → is_empty_text pid ≡ false
      → find_attempt pid rows ≡ some row
      → row.status ≡ Status.attempting
      → row.base_branch ≡ some base
      → is_empty_text base ≡ false
      → endpoint.find_by_idempotency_key row.idempotency_key row.repository_id base e
        ≡ (ok (some receipt), e')
      → check_receipt host row receipt ≡ ok receipted
      → recover_publication host endpoint (str pid) (rows, e) ≡ (
        ok (completed_row receipted row),
        (replace process_of row.process_id (completed_row receipted row) rows, e'),
      )
  unfolding recover_publication recover_row recover_attempting settle
  recover-completes pid rows row base receipt receipted e e' named at was based filled asked
        checked =
      rw (recover_publication, get_attempt-named pid rows row named at)
        (by_status row.status was ∙ by_base row.base_branch based ∙ settled)
    where
      settled :
          settle host endpoint
            (str pid)
            rows
            (endpoint.find_by_idempotency_key row.idempotency_key row.repository_id base e)
          ≡ (
            ok (completed_row receipted row),
            (replace process_of row.process_id (completed_row receipted row) rows, e'),
          )
      settled =
          ap (settle host endpoint (str pid) rows) asked
          ∙ settle-completes pid rows row receipt receipted e' named at was checked

      by_status :
          (s : Status)
          → s ≡ Status.attempting
          → recover_row host endpoint s (str pid) row rows e
            ≡ recover_attempting host endpoint (str pid) row row.base_branch rows e
      by_status s attempts = ap (λ t. recover_row host endpoint t (str pid) row rows e) attempts

      by_base :
          (o : Option Text)
          → o ≡ some base
          → recover_attempting host endpoint (str pid) row o rows e
            ≡ settle host endpoint
                (str pid)
                rows
                (endpoint.find_by_idempotency_key row.idempotency_key row.repository_id base e)
      by_base o is_base =
          ap (λ b. recover_attempting host endpoint (str pid) row b rows e) is_base
          ∙ (rw filled refl)
