-- ===== src/Publication/Updates.antt =====
-- Every operation of the journal changes its rows by steps of their lifecycle.
use mathlib.Core.Path.{subst}
use agent00x.Prelude.{
  not-false, Option-cases, ok_injective, inl, inr, ◌⊎◌, Bool-cases, Result-cases, sym, ◌∙◌, ap,
  text_eq_iff, text_eq_sound, Text, text, text_eq, false, not, Option, none, some, ◌∷◌, Kind,
  Result, ok, err, ◌≡◌, ◌≢◌, refl, arith, bind_returns, raise_if_passes, Outcome,
}
use agent00x.Clock.{DateTime}
use agent00x.Host.{Host}
use agent00x.Publication.Counting.{update_attempt-cases, same_status_sound}
use agent00x.Publication.Journal.{
  check_payload, has_key, found_or_raise, PublicationRecord, Journal, Status, find_attempt,
  process_of, get_attempt, mark_attempting, mark_reconciliation_required, prepare, enter, draft,
  set_status, update_attempt, same_status, checked_process, publication_is_not,
}
use agent00x.Publication.Lifecycle.{
  Grown, Grown-at, Grown-refl, RowStep, starts, loses, finishes, records, same, later, Later,
  Later-refl,
}
use agent00x.Publication.Receipts.{
  Receipt, Receipted, completion, complete_attempt, completed_row, check_receipt, verified_row,
  check_evidence, evidence_row, record_verified_file_reconciliation,
}
use agent00x.Tables.{find-cons, replace, find-replace_self, find-replace_ne, find-key}
use agent00x.Values.{Value}
use agent00x.Workflow.{Object}

different : {s t : Text} → text_eq s t ≡ false → s ≢ t
different {s} {t} h = ground (arith, text_eq_iff s t)

module _ (host : Host) where
  RowStep-process :
      {row new : PublicationRecord} → RowStep host row new → new.process_id ≡ row.process_id
  unfolding completed_row evidence_row
  RowStep-process (starts h) = refl
  RowStep-process (loses h) = refl
  RowStep-process (finishes receipt receipted h c) = refl
  RowStep-process (records manifest outcome commit at moment h c) = refl

  found_once :
      (pid : Text) (rows : Journal) (a b : PublicationRecord)
      → find_attempt pid rows ≡ some a
      → find_attempt pid rows ≡ some b
      → a ≡ b
  found_once pid rows a b h h' = cc

  replace-Later :
      (pid : Text) (old new : PublicationRecord) (rows : Journal)
      → find_attempt pid rows ≡ some old
      → RowStep host old new
      → Later host rows (replace process_of pid new rows)
  replace-Later pid old new rows at s pid' = elim (Bool-cases (text_eq pid pid')) [
    | inl own ↦
        subst
          (λ p. Grown host (find_attempt p rows) (find_attempt p (replace process_of pid new rows)))
          (text_eq_sound pid pid' own)
          (Grown-at host (some old) (some new) _ _ (sym at)
            (sym (find-replace_self process_of pid new old rows keyed at)) (later same s))
    | inr other ↦
        subst (Grown host (find_attempt pid' rows))
          (sym (find-replace_ne process_of pid pid' new rows keyed (different other)))
          (Grown-refl host _)
  ]
    where
      keyed : new.process_id ≡ pid
      keyed = RowStep-process s ∙ find-key process_of pid rows old at

  update_attempt-Later :
      (pid : Text) (expected : Status) (change : PublicationRecord → PublicationRecord) (m : Text)
      (rows : Journal)
      → ((row : PublicationRecord)
          → find_attempt pid rows ≡ some row
          → row.status ≡ expected
          → RowStep host row (change row))
      → Later host rows (update_attempt pid expected change m rows).1
  update_attempt-Later pid expected change m rows steps =
      elim (update_attempt-cases pid expected change m rows) [
        | inl kept ↦ rw kept (Later-refl host rows)
        | inr found ↦
            let (row, at, was, done) = found in
            rw done (replace-Later pid row (change row) rows at (steps row at was))
      ]

  -- A call that raises keeps the rows; one that returns is followed by `rest`.
  then-Later {ℓ} :
      {A : Type ℓ} (call : Result A) (rest : A → Outcome Journal (Unit {0})) (rows : Journal)
      → ((a : A) → call ≡ ok a → Later host rows (rest a).1)
      → Later host rows (
          (elim call as (λ _. Outcome Journal (Unit {0})) [
            | ok a ↦ rest a
            | err k m ↦ (err k m, rows)
          ]).1)
  then-Later (ok a) rest rows h = h a refl
  then-Later (err k m) rest rows h = Later-refl host rows

  pub mark_attempting-Later :
      (v : Value) (rows : Journal) → Later host rows (mark_attempting v rows).1
  unfolding mark_attempting set_status
  mark_attempting-Later v rows =
      then-Later (checked_process v) _ rows
        (λ pid _. update_attempt-Later pid Status.prepared _ _ rows (λ row _ was. starts was))

  pub mark_reconciliation_required-Later :
      (v : Value) (rows : Journal) → Later host rows (mark_reconciliation_required v rows).1
  unfolding mark_reconciliation_required set_status
  mark_reconciliation_required-Later v rows =
      then-Later (checked_process v) _ rows
        (λ pid _. update_attempt-Later pid Status.attempting _ _ rows (λ row _ was. loses was))

  found_or_raise-ok :
      (pid : Text) (found : Option PublicationRecord) (row : PublicationRecord)
      → found_or_raise pid found ≡ ok row
      → found ≡ some row
  unfolding found_or_raise
  found_or_raise-ok pid none row h = cc
  found_or_raise-ok pid (some r) row h = ap some (ok_injective r row h)

  find_at :
      (k k' : Text) (rows : Journal) (row : PublicationRecord)
      → k ≡ k'
      → find_attempt k' rows ≡ some row
      → find_attempt k rows ≡ some row
  find_at k k' rows row e h = rw e h

  -- A step of the row that is stored is a step of the row that was read.
  step_found :
      (change : PublicationRecord → PublicationRecord) (pid : Text) (rows : Journal)
      (read row : PublicationRecord)
      → find_attempt pid rows ≡ some read
      → find_attempt pid rows ≡ some row
      → RowStep host read (change read)
      → RowStep host row (change row)
  step_found change pid rows read row h h' s =
      subst (λ r. RowStep host r (change r)) (found_once pid rows read row h h') s

  get_attempt-find :
      (v : Value) (rows : Journal) (row : PublicationRecord)
      → get_attempt v rows ≡ ok row
      → find_attempt row.process_id rows ≡ some row
  unfolding get_attempt
  get_attempt-find v rows row h =
      let (pid, named, h1) = bind_returns (checked_process v) _ h in
      let at : find_attempt pid rows ≡ some row = found_or_raise-ok pid _ row h1 in
      find_at row.process_id pid rows row (find-key process_of pid rows row at) at

  -- A status in which `_mark_completed` is called.
  abbrev pub IsUnsettled : Status → Type 0
  IsUnsettled s = (s ≡ Status.attempting) ⊎ (s ≡ Status.reconciliation_required)

  completion-Later :
      (v : Value) (receipt : Receipt) (expected : Status) (rows : Journal)
      → IsUnsettled expected
      → (found : PublicationRecord × Receipted) → completion host v receipt expected rows ≡ ok found
      → Later host rows
          (update_attempt found.0.process_id expected
            (completed_row found.1)
            (publication_is_not expected)
            rows).1
  unfolding completion
  completion-Later v receipt expected rows unsettled found e =
      let (row, read, h1) = bind_returns (get_attempt v rows) _ e in
      let (was, h2) =
        raise_if_passes (not (same_status row.status expected)) Kind.value_error
          (publication_is_not expected) _ h1 in
      let (receipted, checked, h3) = bind_returns (check_receipt host row receipt) _ h2 in
      let status : IsUnsettled row.status = rw (same_status_sound _ _ (not-false was)) unsettled in
      subst
        (λ (f : PublicationRecord × Receipted).
          Later host rows
            (update_attempt f.0.process_id expected (completed_row f.1)
              (publication_is_not expected) rows).1)
        (ok_injective _ _ h3)
        (update_attempt-Later row.process_id expected (completed_row receipted) _ rows (λ now at _.
          step_found (completed_row receipted) row.process_id rows row now
            (get_attempt-find v rows row read) at (finishes receipt receipted status checked)))

  pub complete_attempt-Later :
      (v : Value) (receipt : Receipt) (expected : Status) (rows : Journal)
      → IsUnsettled expected
      → Later host rows (complete_attempt host v receipt expected rows).1
  unfolding complete_attempt
  complete_attempt-Later v receipt expected rows unsettled =
      then-Later (completion host v receipt expected rows) _ rows
        (λ found e. completion-Later v receipt expected rows unsettled found e)

  verified_row-Later :
      (v manifest outcome commit : Value) (at : Object DateTime) (rows : Journal)
      (new : PublicationRecord)
      → verified_row host v manifest outcome commit at rows ≡ ok new
      → Later host rows
          (update_attempt new.process_id Status.reconciliation_required
            (λ _. new)
            (text "publication is not awaiting reconciliation")
            rows).1
  unfolding verified_row
  verified_row-Later v manifest outcome commit at rows new e =
      let (row, read, h1) = bind_returns (get_attempt v rows) _ e in
      let (was, h2) =
        raise_if_passes (not (same_status row.status Status.reconciliation_required))
          Kind.value_error (text "publication is not awaiting reconciliation") _ h1 in
      let (moment, checked, h3) =
        bind_returns (check_evidence host row manifest outcome commit at) _ h2 in
      subst
        (λ (n : PublicationRecord).
          Later host rows
            (update_attempt n.process_id Status.reconciliation_required (λ _. n)
              (text "publication is not awaiting reconciliation") rows).1)
        (ok_injective _ _ h3)
        (update_attempt-Later row.process_id Status.reconciliation_required _ _ rows
          (λ now stored _.
            subst (λ r. RowStep host r (evidence_row host manifest outcome commit moment row))
              (found_once row.process_id rows row now (get_attempt-find v rows row read) stored)
              (records manifest outcome commit at moment (same_status_sound _ _ (not-false was))
                checked)))

  pub record-Later :
      (v manifest outcome commit : Value) (at : Object DateTime) (rows : Journal)
      → Later host rows
          (record_verified_file_reconciliation host v manifest outcome commit at rows).1
  unfolding record_verified_file_reconciliation
  record-Later v manifest outcome commit at rows =
      then-Later (verified_row host v manifest outcome commit at rows) _ rows
        (λ new e. verified_row-Later v manifest outcome commit at rows new e)

  new-Later :
      (new : PublicationRecord) (rows : Journal)
      → new.status ≡ Status.prepared
      → find_attempt new.process_id rows ≡ none
      → Later host rows (new ∷ rows)
  new-Later new rows was absent pid = elim (Bool-cases (text_eq new.process_id pid)) [
    | inl own ↦
        Grown-at host none (some new) _ _ (sym (gone (text_eq_sound _ _ own)))
          (sym (find-cons process_of pid new rows ∙ rw own refl)) (new, was, same)
    | inr other ↦
        Grown-at host _ _ _ _ refl (sym (find-cons process_of pid new rows ∙ rw other refl))
          (Grown-refl host (find_attempt pid rows))
  ]
    where
      gone : new.process_id ≡ pid → find_attempt pid rows ≡ none
      gone e = sym (ap (λ p. find_attempt p rows) e) ∙ absent

  enter-Later :
      (new : PublicationRecord) (rows : Journal)
      → new.status ≡ Status.prepared
      → Later host rows (enter new rows).1
  unfolding enter
  enter-Later new rows was = elim (Option-cases (find_attempt new.process_id rows)) [
    | inl absent ↦ elim (Bool-cases (has_key new.idempotency_key rows)) [
      | inl taken ↦ rw (enter, absent, taken) (Later-refl host rows)
      | inr free ↦ rw (enter, absent, free) (new-Later new rows was absent)
    ]
    | inr found ↦ rw (enter, found.1) (Later-refl host rows)
  ]

  draft-status :
      (v key digest repository files : Value) (new : PublicationRecord)
      → draft v key digest repository files ≡ ok new
      → new.status ≡ Status.prepared
  unfolding draft
  draft-status v key digest repository files new h =
      let (base, checked, h1) = bind_returns (check_payload v key digest repository files) _ h in
      ap (λ (r : PublicationRecord). r.status) (sym (ok_injective _ _ h1))

  pub prepare-Later :
      (v key digest repository files : Value) (rows : Journal)
      → Later host rows (prepare v key digest repository files rows).1
  unfolding prepare
  prepare-Later v key digest repository files rows =
      elim (Result-cases (draft v key digest repository files)) [
        | inl drafted ↦
            rw (prepare, drafted.1)
              (enter-Later drafted.0 rows
                (draft-status v key digest repository files drafted.0 drafted.1))
        | inr raised ↦ let (k, m, e) = raised in rw (prepare, e) (Later-refl host rows)
      ]
