-- ===== src/Publication/Receipts.antt =====
-- src/app_contracts/publication.py: receipts of pull requests, and the updates that they allow.
use agent00x.Prelude.{
  all_codes, ℕ, suc, Text, text, text_eq, Bool, true, false, ◌&&◌, ◌||◌, not, Option, none, some,
  [], ◌∷◌, Kind, Result, ok, err, raise_if, ◌>>=◌, ◌>>◌, if◌then◌else◌, ◌==◌, length, is_empty_text,
  Outcome,
}
use agent00x.Clock.{DateTime}
use agent00x.Digests.Shape.{is_digest, lower_hex}
use agent00x.Host.{Host, UrlParts}
use agent00x.Publication.Journal.{
  PublicationRecord, Journal, Status, same_status, update_attempt, get_attempt, publication_is_not,
  status_text,
}
use agent00x.Publication.Keys.{publication_idempotency_key}
use agent00x.Values.{Value, null, int, str, pos, py_eq, is_name, is_str, text_of, in_names}
use agent00x.Workflow.{Object, instance_of, foreign}

-- The fields that `MockPullRequest` and `GitHubPullRequest` share.
pub record PullRequest : Type 0 where
  pub pull_request_id : Value
  pub repository_id : Value
  pub branch : Value
  pub staged_change_digest : Value
  pub idempotency_key : Value
  pub base_branch : Value

-- A `GitHubPullRequest` also has a `pull_request_url`.
pub data Receipt : Type 0 where
  mock : PullRequest → Receipt
  github : Value → PullRequest → Receipt
  other_object : Receipt

unfoldable pub receipt_is_invalid : Bool → Result (Unit {0})
receipt_is_invalid t = raise_if t Kind.value_error (text "publication receipt is invalid")

-- An integer of at least 1 that is no bool
unfoldable pub receipt_number : Value → Option ℕ
receipt_number (int (pos (suc n))) = some (suc n)
receipt_number _ = none

unfoldable pub number_or_raise : Option ℕ → Result ℕ
number_or_raise none = err Kind.value_error (text "publication receipt is invalid")
number_or_raise (some n) = ok n

absent : Option Text → Bool
absent none = true
absent (some _) = false

-- An https URL without credentials or fragment
unfoldable pub acceptable_url : Option UrlParts → Bool
unfolding text_eq absent
acceptable_url none = false
acceptable_url (some parts) =
    text_eq parts.scheme (text "https")
    && (not (is_empty_text parts.netloc)
        && (absent parts.username && (absent parts.password && is_empty_text parts.fragment)))

-- `record.base_branch or ""`
unfoldable pub base_or_empty : Option Text → Text
base_or_empty none = []
base_or_empty (some base) = base

unfoldable pub is_this_base : Value → Option Text → Bool
is_this_base v none = false
is_this_base v (some base) = py_eq v (str base)

-- The number, the URL and the fields of a receipt that belongs to this attempt.
pub record Receipted : Type 0 where
  pub number : ℕ
  pub url : Option Text

-- The comparison of the receipt with the journal's row.
unfoldable pub match_receipt : PublicationRecord → PullRequest → Result (Unit {0})
unfolding publication_idempotency_key base_or_empty text_eq is_this_base
match_receipt row pull = do
  expected_key ←
      publication_idempotency_key (text_of pull.branch) (base_or_empty row.base_branch)
        (text_of pull.staged_change_digest)
  raise_if
      (not (text_eq expected_key row.idempotency_key)
        || (not (py_eq pull.idempotency_key (str row.idempotency_key))
            || (not (py_eq pull.repository_id (str row.repository_id))
                || not (is_this_base pull.base_branch row.base_branch))))
      Kind.value_error (text "publication receipt mismatch")

unfoldable pub check_pull : PullRequest → Result ℕ
unfolding receipt_number number_or_raise receipt_is_invalid
check_pull pull = do
  number ← number_or_raise (receipt_number pull.pull_request_id)
  receipt_is_invalid (not (is_name pull.branch) || not (is_name pull.staged_change_digest))
  ok number

unfoldable pub completed_row : Receipted → PublicationRecord → PublicationRecord
completed_row receipted row = record row {
  status = Status.completed;
  pull_request_id = some receipted.number;
  pull_request_url = receipted.url;
}

module _ (host : Host) where
  -- `isinstance(receipt_url, str)` and what `urlparse` finds
  unfoldable pub url_is_acceptable : Value → Bool
  unfolding acceptable_url
  url_is_acceptable (str s) = acceptable_url (host.urlparse s)
  url_is_acceptable _ = false

  -- The checks of `_mark_completed` on the receipt.
  unfoldable pub check_receipt : PublicationRecord → Receipt → Result Receipted
  unfolding check_pull match_receipt url_is_acceptable receipt_is_invalid
  check_receipt row (mock pull) = do
    number ← check_pull pull
    match_receipt row pull
    ok record { number = number; url = none }
  check_receipt row (github url pull) = do
    number ← check_pull pull
    receipt_is_invalid (not (url_is_acceptable url))
    match_receipt row pull
    ok record { number = number; url = some (text_of url) }
  check_receipt row other_object = err Kind.value_error (text "publication receipt is invalid")

  -- The tests of `_mark_completed` before its update.
  unfoldable pub completion :
      Value → Receipt → Status → Journal → Result (PublicationRecord × Receipted)
  unfolding get_attempt same_status check_receipt status_text
  completion process_id receipt expected rows = do
    row ← get_attempt process_id rows
    raise_if (not (same_status row.status expected)) Kind.value_error (publication_is_not expected)
    receipted ← check_receipt row receipt
    ok (row, receipted)

  -- `PublicationJournal._mark_completed`
  unfoldable pub complete_attempt : Value → Receipt → Status → Journal → Outcome Journal (Unit {0})
  unfolding completion update_attempt completed_row status_text
  complete_attempt process_id receipt expected rows =
      elim (completion process_id receipt expected rows) [
        | err k m ↦ (err k m, rows)
        | ok found ↦
            update_attempt found.0.process_id expected (completed_row found.1)
              (publication_is_not expected) rows
      ]

  -- `PublicationJournal.mark_completed`
  unfoldable pub mark_completed : Value → Receipt → Journal → Outcome Journal (Unit {0})
  unfolding complete_attempt
  mark_completed process_id receipt = complete_attempt process_id receipt Status.attempting

  -- `PublicationJournal.mark_completed_from_reconciliation`
  unfoldable pub mark_completed_from_reconciliation :
      Value → Receipt → Journal → Outcome Journal (Unit {0})
  unfolding complete_attempt
  mark_completed_from_reconciliation process_id receipt =
      complete_attempt process_id receipt Status.reconciliation_required

  aware_instant : Object DateTime → Option ℕ
  aware_instant foreign = none
  aware_instant (instance_of t) = if t.aware then some t.instant else none

  evidence_moment : Object DateTime → Result ℕ
  unfolding aware_instant
  evidence_moment observed_at = elim (aware_instant observed_at) [
    | none ↦ err Kind.value_error (text "publication reconciliation evidence is invalid")
    | some t ↦ ok t
  ]

  -- `re.fullmatch(r"[0-9a-f]{40}", …)` where verified, `None` where not
  commit_fits : Text → Value → Bool
  unfolding text_eq lower_hex all_codes
  commit_fits outcome (str s) =
      text_eq outcome (text "verified") && (length s == 40 && all_codes lower_hex s)
  commit_fits outcome null = not (text_eq outcome (text "verified"))
  commit_fits outcome _ = false

  optional_commit : Value → Option Text
  optional_commit (str s) = some s
  optional_commit _ = none

  matches_stored : Value → Option Text → Bool
  matches_stored v none = false
  matches_stored v (some digest) = py_eq v (str digest)

  -- The tests of `record_verified_file_reconciliation` on the evidence, and its moment.
  unfoldable pub check_evidence :
      PublicationRecord → Value → Value → Value → Object DateTime → Result ℕ
  unfolding is_digest evidence_moment commit_fits matches_stored
  check_evidence row manifest_digest outcome branch_commit_sha observed_at = do
    raise_if
        (not (is_str manifest_digest)
          || (not (is_digest (text_of manifest_digest))
              || (not (matches_stored manifest_digest row.verified_files_digest)
                  || not (in_names outcome (text "verified" ∷ text "unverified" ∷ [])))))
        Kind.value_error (text "publication reconciliation evidence is invalid")
    moment ← evidence_moment observed_at
    raise_if (not (commit_fits (text_of outcome) branch_commit_sha)) Kind.value_error
        (text "publication reconciliation evidence is invalid")
    ok moment

  -- The columns that `record_verified_file_reconciliation` writes.
  unfoldable pub evidence_row : Value → Value → Value → ℕ → PublicationRecord → PublicationRecord
  unfolding optional_commit
  evidence_row manifest_digest outcome branch_commit_sha moment row = record row {
    verified_files_digest = some (text_of manifest_digest);
    verified_files_outcome = some (text_of outcome);
    verified_branch_commit_sha = optional_commit branch_commit_sha;
    verified_files_observed_at = some (host.isoformat moment);
  }

  -- The row with the evidence, where the attempt awaits reconciliation.
  unfoldable pub verified_row :
      Value → Value → Value → Value → Object DateTime → Journal → Result PublicationRecord
  unfolding get_attempt same_status check_evidence evidence_row
  verified_row process_id manifest_digest outcome branch_commit_sha observed_at rows = do
    row ← get_attempt process_id rows
    raise_if (not (same_status row.status Status.reconciliation_required)) Kind.value_error
        (text "publication is not awaiting reconciliation")
    moment ← check_evidence row manifest_digest outcome branch_commit_sha observed_at
    ok (evidence_row manifest_digest outcome branch_commit_sha moment row)

  -- `PublicationJournal.record_verified_file_reconciliation`
  unfoldable pub record_verified_file_reconciliation :
      Value → Value → Value → Value → Object DateTime → Journal → Outcome Journal (Unit {0})
  unfolding verified_row update_attempt
  record_verified_file_reconciliation process_id manifest_digest outcome branch_commit_sha
        observed_at rows =
      elim (verified_row process_id manifest_digest outcome branch_commit_sha observed_at rows) [
        | err k m ↦ (err k m, rows)
        | ok new ↦
            update_attempt new.process_id Status.reconciliation_required (λ _. new)
              (text "publication is not awaiting reconciliation") rows
      ]
