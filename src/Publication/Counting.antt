-- ===== src/Publication/Counting.antt =====
-- How many attempts of the journal have left `prepared`, and how the updates change that number.
use agent00x.Prelude.{
  not-false, ok_injective, sym, ◌∙◌, Result-cases, Option-cases, ◌⊎◌, inl, inr, Bool-cases, ap, ℕ,
  suc, ◌+◌, ◌≤◌, Text, text, true, not, some, [], ◌∷◌, Kind, Result, ok, err, ◌≡◌, refl, arith,
  bind_returns, raise_if_passes, Outcome,
}
use agent00x.Clock.{DateTime}
use agent00x.Host.{Host}
use agent00x.Publication.Journal.{
  publication_is_not, get_attempt, checked_process, draft, enter, mark_attempting, prepare,
  set_status, PublicationRecord, Journal, Status, same_status, update_attempt, find_attempt,
  process_of,
}
use agent00x.Publication.Receipts.{
  check_evidence, completion, completed_row, verified_row, Receipt, complete_attempt,
  record_verified_file_reconciliation,
}
use agent00x.Tables.{find, replace}
use agent00x.Values.{Value}
use agent00x.Workflow.{Object}

unfoldable pub cost_of : Status → ℕ
cost_of Status.prepared = 0
cost_of Status.attempting = 1
cost_of Status.completed = 1
cost_of Status.reconciliation_required = 1

-- The number of attempts that are not `prepared`.
unfoldable pub spent : Journal → ℕ
unfolding cost_of
spent [] = 0
spent (r ∷ rs) = cost_of r.status + spent rs

spent-replace :
    (pid : Text) (old new : PublicationRecord) (rows : Journal)
    → find_attempt pid rows ≡ some old
    → spent (replace process_of pid new rows) + cost_of old.status ≡ spent rows + cost_of new.status
unfolding spent find replace
spent-replace pid old new [] h = cc
spent-replace pid old new (r ∷ rows) h = ground (arith, spent-replace pid old new rows)

pub same_status_sound : (s t : Status) → same_status s t ≡ true → s ≡ t
unfolding same_status
same_status_sound Status.prepared Status.prepared h = refl
same_status_sound Status.attempting Status.attempting h = refl
same_status_sound Status.completed Status.completed h = refl
same_status_sound Status.reconciliation_required Status.reconciliation_required h = refl
same_status_sound _ _ h = ground arith

-- An update either leaves the rows or changes the one that it found in the expected status.
pub update_attempt-cases :
    (pid : Text) (expected : Status) (change : PublicationRecord → PublicationRecord) (m : Text)
    (rows : Journal)
    → (update_attempt pid expected change m rows ≡ (err Kind.value_error m, rows))
      ⊎ ((row : PublicationRecord) × (find_attempt pid rows ≡ some row)
          × (row.status ≡ expected)
          × (update_attempt pid expected change m rows
              ≡ (ok tt, replace process_of pid (change row) rows)))
unfolding update_attempt
update_attempt-cases pid expected change m rows = elim (Option-cases (find_attempt pid rows)) [
  | inl absent ↦ inl (ground (arith, absent))
  | inr found ↦ elim (Bool-cases (same_status found.0.status expected)) [
    | inl same ↦
        inr (found.0, found.1, same_status_sound _ _ same, rw (update_attempt, found.1, same) refl)
    | inr differs ↦ inl (rw (update_attempt, found.1, differs) refl)
  ]
]

update_attempt-spent :
    (pid : Text) (expected : Status) (change : PublicationRecord → PublicationRecord) (m : Text)
    (rows : Journal)
    → ((row : PublicationRecord) → cost_of (change row).status ≡ 1)
    → spent rows ≤ spent (update_attempt pid expected change m rows).1
unfolding cost_of
update_attempt-spent pid expected change m rows costs =
    elim (update_attempt-cases pid expected change m rows) [
      | inl kept ↦ rw kept (omega arith)
      | inr found ↦
          let (row, at, was, done) = found in
          rw done (ground (arith, spent-replace pid row (change row) rows at, costs row))
    ]

-- A call that raises keeps the rows; one that returns is followed by `rest`.
pub then_spent {ℓ} :
    {A : Type ℓ} (call : Result A) (rest : A → Outcome Journal (Unit {0})) (rows : Journal)
    → ((a : A) → call ≡ ok a → spent rows ≤ spent (rest a).1)
    → spent rows
      ≤ spent (
          (elim call as (λ _. Outcome Journal (Unit {0})) [
            | ok a ↦ rest a
            | err k m ↦ (err k m, rows)
          ]).1)
then_spent (ok a) rest rows h = h a refl
then_spent (err k m) rest rows h = omega arith

pub set_status-spent :
    (v : Value) (expected target : Status) (rows : Journal)
    → cost_of target ≡ 1
    → spent rows ≤ spent (set_status v expected target rows).1
unfolding set_status
set_status-spent v expected target rows one =
    then_spent (checked_process v) _ rows
      (λ pid _. update_attempt-spent pid expected _ _ rows (λ _. one))

raised_not_ok {ℓ κ} : {A : Type ℓ} {P : Type κ} {k : Kind} {m : Text} {a : A} → err k m ≡ ok a → P
raised_not_ok h = cc

update_attempt-starts :
    (pid : Text) (change : PublicationRecord → PublicationRecord) (m : Text) (rows : Journal)
    → ((row : PublicationRecord) → cost_of (change row).status ≡ 1)
    → (update_attempt pid Status.prepared change m rows).0 ≡ ok tt
    → suc (spent rows) ≤ spent (update_attempt pid Status.prepared change m rows).1
unfolding cost_of
update_attempt-starts pid change m rows costs marked =
    elim (update_attempt-cases pid Status.prepared change m rows) [
      | inl kept ↦ raised_not_ok (sym (ap (λ (o : Outcome Journal (Unit {0})). o.0) kept) ∙ marked)
      | inr found ↦
          let (row, at, was, done) = found in
          rw done
            (ground (arith, spent-replace pid row (change row) rows at, costs row, ap cost_of was))
    ]

pub mark_attempting-spent_le :
    (v : Value) (rows : Journal) → spent rows ≤ spent (mark_attempting v rows).1
unfolding mark_attempting cost_of
mark_attempting-spent_le v rows = set_status-spent v Status.prepared Status.attempting rows refl

-- An attempt that starts leaves `prepared`.
pub mark_attempting-spent :
    (v : Value) (rows : Journal)
    → (mark_attempting v rows).0 ≡ ok tt
    → suc (spent rows) ≤ spent (mark_attempting v rows).1
unfolding mark_attempting set_status cost_of
mark_attempting-spent v rows marked = started (checked_process v) marked
  where
    started :
        (call : Result Text)
        → (elim call as (λ _. Outcome Journal (Unit {0})) [
          | ok pid ↦
              update_attempt pid Status.prepared
                (λ row. record row { status = Status.attempting })
                (publication_is_not Status.prepared)
                rows
          | err k m ↦ (err k m, rows)
        ]).0
          ≡ ok tt
        → suc (spent rows)
          ≤ spent (
              (elim call as (λ _. Outcome Journal (Unit {0})) [
                | ok pid ↦
                    update_attempt pid Status.prepared
                      (λ row. record row { status = Status.attempting })
                      (publication_is_not Status.prepared)
                      rows
                | err k m ↦ (err k m, rows)
              ]).1)
    started (ok pid) h = update_attempt-starts pid _ _ rows (λ _. refl) h
    started (err k m) h = raised_not_ok h

pub mark_completed-spent :
    (host : Host) (v : Value) (receipt : Receipt) (expected : Status) (rows : Journal)
    → spent rows ≤ spent (complete_attempt host v receipt expected rows).1
unfolding complete_attempt completed_row cost_of
mark_completed-spent host v receipt expected rows =
    then_spent (completion host v receipt expected rows) _ rows
      (λ found _. update_attempt-spent found.0.process_id expected _ _ rows (λ _. refl))

verified_row-status :
    (host : Host) (v manifest outcome commit : Value) (at : Object DateTime) (rows : Journal)
    (new : PublicationRecord)
    → verified_row host v manifest outcome commit at rows ≡ ok new
    → new.status ≡ Status.reconciliation_required
unfolding verified_row
verified_row-status host v manifest outcome commit at rows new h =
    let (row, found, h1) = bind_returns (get_attempt v rows) _ h in
    let (was, h2) =
      raise_if_passes (not (same_status row.status Status.reconciliation_required)) Kind.value_error
        (text "publication is not awaiting reconciliation") _ h1 in
    let (moment, checked, h3) =
      bind_returns (check_evidence host row manifest outcome commit at) _ h2 in
    ap (λ (r : PublicationRecord). r.status) (sym (ok_injective _ _ h3))
    ∙ same_status_sound _ _ (not-false was)

pub record_verified-spent :
    (host : Host) (v manifest outcome commit : Value) (at : Object DateTime) (rows : Journal)
    → spent rows
      ≤ spent (record_verified_file_reconciliation host v manifest outcome commit at rows).1
unfolding record_verified_file_reconciliation cost_of
record_verified-spent host v manifest outcome commit at rows =
    then_spent (verified_row host v manifest outcome commit at rows) _ rows (λ new e.
      update_attempt-spent new.process_id Status.reconciliation_required _ _ rows
        (λ _. ap cost_of (verified_row-status host v manifest outcome commit at rows new e)))

enter-spent : (new : PublicationRecord) (rows : Journal) → spent rows ≤ spent (enter new rows).1
unfolding enter spent
enter-spent new rows = ground arith

pub prepare-spent :
    (v key digest repository files : Value) (rows : Journal)
    → spent rows ≤ spent (prepare v key digest repository files rows).1
unfolding prepare
prepare-spent v key digest repository files rows =
    elim (Result-cases (draft v key digest repository files)) [
      | inl drafted ↦ rw (prepare, drafted.1) (enter-spent drafted.0 rows)
      | inr raised ↦ let (k, m, e) = raised in rw (prepare, e) (omega arith)
    ]
