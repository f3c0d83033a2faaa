-- ===== src/Publication/Journal.antt =====
-- src/app_contracts/publication.py: the journal's table, `prepare`, `get` and the status updates.
use agent00x.Prelude.{
  split_on, or_raise, remove_prefix, ℕ, Text, text, text_eq, starts_with, Bool, true, false, ◌&&◌,
  ◌||◌, not, Option, none, some, List, [], ◌∷◌, ◌++◌, Kind, Result, ok, err, raise_if, ◌>>=◌, ◌>>◌,
  if◌then◌else◌, is_empty_text, Outcome,
}
use agent00x.Digests.Shape.{is_digest}
use agent00x.Publication.Keys.{validate_base_branch}
use agent00x.Publication.Percent.{quote, unquote}
use agent00x.Tables.{find, replace}
use agent00x.Values.{Value, null, str, is_name, text_of}

-- The values that the table admits for `status`.
pub data Status : Type 0 where
  prepared attempting completed reconciliation_required : Status

unfoldable pub status_text : Status → Text
status_text Status.prepared = text "prepared"
status_text Status.attempting = text "attempting"
status_text Status.completed = text "completed"
status_text Status.reconciliation_required = text "reconciliation_required"

unfoldable pub same_status : Status → Status → Bool
same_status Status.prepared Status.prepared = true
same_status Status.attempting Status.attempting = true
same_status Status.completed Status.completed = true
same_status Status.reconciliation_required Status.reconciliation_required = true
same_status _ _ = false

-- A row of `publication_attempts`
pub record PublicationRecord : Type 0 where
  pub process_id : Text
  pub idempotency_key : Text
  pub request_digest : Text
  pub repository_id : Text
  pub base_branch : Option Text
  pub status : Status
  pub pull_request_id : Option ℕ
  pub pull_request_url : Option Text
  pub verified_files_digest : Option Text
  pub verified_files_outcome : Option Text
  pub verified_branch_commit_sha : Option Text
  pub verified_files_observed_at : Option Text

-- The table, its newest row first.
abbrev pub Journal : Type 0
Journal = List PublicationRecord

abbrev pub process_of : PublicationRecord → Text
process_of r = r.process_id

abbrev pub find_attempt : Text → Journal → Option PublicationRecord
find_attempt = find process_of

unfoldable pub checked_process : Value → Result Text
checked_process v =
    if is_name v
    then ok (text_of v)
    else err Kind.value_error (text "publication process ID is invalid")

unfoldable pub found_or_raise : Text → Option PublicationRecord → Result PublicationRecord
found_or_raise pid none = err Kind.key_error pid
found_or_raise pid (some row) = ok row

-- `PublicationJournal.get`
unfoldable pub get_attempt : Value → Journal → Result PublicationRecord
unfolding checked_process found_or_raise find
get_attempt process_id rows = do
  pid ← checked_process process_id
  found_or_raise pid (find_attempt pid rows)

abbrev publish_prefix : Text
publish_prefix = text "publish/"

-- `key_body.split("/")`
unfoldable pub key_parts : Text → List Text
unfolding starts_with remove_prefix split_on
key_parts key =
    split_on 47 (if starts_with publish_prefix key then remove_prefix publish_prefix key else [])

not_canonical : Bool → Result (Unit {0})
not_canonical t = raise_if t Kind.value_error (text "publication idempotency key is not canonical")

-- The base branch that a canonical key names.
unfoldable pub base_of_parts : List Text → Result Text
unfolding not_canonical quote unquote is_digest text_eq
base_of_parts (head ∷ base ∷ digest ∷ []) = do
  not_canonical (is_empty_text head || (is_empty_text base || is_empty_text digest))
  head_again ← quote (unquote head)
  not_canonical (not (text_eq head_again head))
  base_again ← quote (unquote base)
  not_canonical (not (text_eq base_again base))
  not_canonical (not (is_digest digest))
  ok (unquote base)
base_of_parts _ = err Kind.value_error (text "publication idempotency key is not canonical")

unfoldable pub digest_or_none : Value → Bool
unfolding is_digest
digest_or_none null = true
digest_or_none (str s) = is_digest s
digest_or_none _ = false

unfoldable pub optional_text : Value → Option Text
optional_text (str s) = some s
optional_text _ = none

-- The tests of `prepare` on its arguments, and the base branch that the key names.
unfoldable pub check_payload : Value → Value → Value → Value → Value → Result Text
unfolding key_parts base_of_parts is_digest digest_or_none validate_base_branch
check_payload process_id idempotency_key request_digest repository_id verified_files_digest = do
  raise_if (not (is_name process_id)) Kind.value_error (text "publication process ID is invalid")
  raise_if (not (is_name idempotency_key)) Kind.value_error
      (text "publication idempotency key is invalid")
  base ← base_of_parts (key_parts (text_of idempotency_key))
  or_raise (validate_base_branch (str base)) Kind.value_error
      (text "publication idempotency key is not canonical")
  raise_if (not (is_name request_digest)) Kind.value_error
      (text "publication request digest is invalid")
  raise_if (not (is_digest (text_of request_digest))) Kind.value_error
      (text "publication request digest is not canonical")
  raise_if (not (is_name repository_id)) Kind.value_error (text "publication repository is invalid")
  raise_if (not (digest_or_none verified_files_digest)) Kind.value_error
      (text "publication verified-files digest is invalid")
  ok base

-- The row that `prepare` inserts.
unfoldable pub fresh_row : Value → Value → Value → Value → Value → Text → PublicationRecord
unfolding optional_text
fresh_row process_id idempotency_key request_digest repository_id verified_files_digest base =
    record {
      process_id = text_of process_id;
      idempotency_key = text_of idempotency_key;
      request_digest = text_of request_digest;
      repository_id = text_of repository_id;
      base_branch = some base;
      status = Status.prepared;
      pull_request_id = none;
      pull_request_url = none;
      verified_files_digest = optional_text verified_files_digest;
      verified_files_outcome = none;
      verified_branch_commit_sha = none;
      verified_files_observed_at = none;
    }

-- The arguments of `prepare`, checked, as the row that it would insert.
unfoldable pub draft : Value → Value → Value → Value → Value → Result PublicationRecord
unfolding check_payload fresh_row
draft process_id idempotency_key request_digest repository_id verified_files_digest = do
  base ← check_payload process_id idempotency_key request_digest repository_id verified_files_digest
  ok (fresh_row process_id idempotency_key request_digest repository_id verified_files_digest base)

unfoldable pub same_optional : Option Text → Option Text → Bool
unfolding text_eq
same_optional none none = true
same_optional (some s) (some t) = text_eq s t
same_optional _ _ = false

is_none : Option Text → Bool
is_none none = true
is_none (some _) = false

-- The stored attempt has the payload of a repeated `prepare`.
unfoldable pub same_payload : PublicationRecord → PublicationRecord → Bool
unfolding same_optional text_eq is_none
same_payload existing new =
    text_eq existing.idempotency_key new.idempotency_key
    && (text_eq existing.request_digest new.request_digest
        && (text_eq existing.repository_id new.repository_id
            && (same_optional existing.base_branch new.base_branch
                && (is_none new.verified_files_digest
                    || same_optional existing.verified_files_digest new.verified_files_digest))))

-- `UNIQUE` on `idempotency_key`
unfoldable pub has_key : Text → Journal → Bool
unfolding text_eq
has_key key [] = false
has_key key (r ∷ rs) = text_eq r.idempotency_key key || has_key key rs

unfoldable pub conflict : Result PublicationRecord
conflict = err Kind.value_error (text "publication payload conflict")

-- The part of `prepare` from its look-up on.
unfoldable pub enter : PublicationRecord → Journal → Outcome Journal PublicationRecord
unfolding same_payload has_key find conflict
enter new rows = elim (find_attempt new.process_id rows) [
  | some existing ↦ ((if same_payload existing new then ok existing else conflict), rows)
  | none ↦ if has_key new.idempotency_key rows then (conflict, rows) else (ok new, new ∷ rows)
]

-- `PublicationJournal.prepare`
unfoldable pub prepare :
    Value → Value → Value → Value → Value → Journal → Outcome Journal PublicationRecord
unfolding draft enter
prepare process_id idempotency_key request_digest repository_id verified_files_digest rows =
    elim (draft process_id idempotency_key request_digest repository_id verified_files_digest) [
      | ok new ↦ enter new rows
      | err k m ↦ (err k m, rows)
    ]

-- `UPDATE … WHERE process_id = ? AND status = ?`, which changes one row or raises.
unfoldable pub update_attempt :
    Text
    → Status
    → (PublicationRecord → PublicationRecord)
    → Text
    → Journal
    → Outcome Journal (Unit {0})
unfolding same_status find replace
update_attempt pid expected change message rows = elim (find_attempt pid rows) [
  | none ↦ (err Kind.value_error message, rows)
  | some row ↦
      if same_status row.status expected
      then (ok tt, replace process_of pid (change row) rows)
      else (err Kind.value_error message, rows)
]

abbrev pub publication_is_not : Status → Text
publication_is_not s = text "publication is not " ++ status_text s

-- `PublicationJournal._set_status`
unfoldable pub set_status : Value → Status → Status → Journal → Outcome Journal (Unit {0})
unfolding checked_process update_attempt status_text
set_status process_id expected target rows = elim (checked_process process_id) [
  | err k m ↦ (err k m, rows)
  | ok pid ↦
      update_attempt pid expected (λ row. record row { status = target })
        (publication_is_not expected) rows
]

-- `PublicationJournal.mark_attempting`
unfoldable pub mark_attempting : Value → Journal → Outcome Journal (Unit {0})
unfolding set_status
mark_attempting process_id = set_status process_id Status.prepared Status.attempting

-- `PublicationJournal.mark_reconciliation_required`
unfoldable pub mark_reconciliation_required : Value → Journal → Outcome Journal (Unit {0})
unfolding set_status
mark_reconciliation_required process_id =
    set_status process_id Status.attempting Status.reconciliation_required
