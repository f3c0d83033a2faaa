-- ===== src/Tests/PublicationRuns.antt =====
-- src/app_contracts/publication.py on concrete inputs.
use agent00x.Prelude.{
  remove_prefix, ℕ, suc, ◌≤◌, Text, text, text_eq, true, none, some, [], ◌∷◌, ok, ◌≡◌, refl,
}
use agent00x.Host.{Host}
use agent00x.Publication.Counting.{spent}
use agent00x.Publication.Execution.{Endpoint, execute_publication, recover_publication}
use agent00x.Publication.Journal.{
  process_of, PublicationRecord, Journal, Status, find_attempt, prepare,
}
use agent00x.Publication.Keys.{
  branch_namespace, publication_idempotency_key, refused_in_base, refused_part,
}
use agent00x.Publication.Lifecycle.{SamePayload}
use agent00x.Publication.Matching.{Matches}
use agent00x.Publication.OnlyOnce.{Reach, start, next, prepares, executes, recovers, Reach-paid}
use agent00x.Publication.Payments.{counted}
use agent00x.Publication.Percent.{quote}
use agent00x.Publication.Preparation.{prepare-again}
use agent00x.Publication.Promises.{Reach-receipted, done, more, Steps-keep}
use agent00x.Publication.Receipts.{completed_row, check_receipt, Receipted, PullRequest, mock}
use agent00x.Publication.Recovery.{recover-completes}
use agent00x.Publication.Separation.{key-parts}
use agent00x.Tables.{replace, find}
use agent00x.Values.{
  text_of, is_name, Value, null, bool, int, str, dict, pos, end, field, as_dict, has, get, py_eq,
}

abbrev host : Host
host = record {
  sha256_hex = λ _. text "00";
  from_isoformat = λ _. none;
  isoformat = λ _. text "1970-01-01T00:00:00Z";
  ed25519_verifies = λ _ _ _. true;
  urlparse = λ _. none;
}

abbrev digest : Text
digest = text "sha256:aaaaaaaaaaaaaaaaaaaaaaaaaaaaaaaaaaaaaaaaaaaaaaaaaaaaaaaaaaaaaaaa"

abbrev key : Text
key =
    text "publish/fix/main/sha256:aaaaaaaaaaaaaaaaaaaaaaaaaaaaaaaaaaaaaaaaaaaaaaaaaaaaaaaaaaaaaaaa"

abbrev pull : PullRequest
pull = record {
  pull_request_id = int (pos 7);
  repository_id = str (text "owner/name");
  branch = str (text "agent/fix");
  staged_change_digest = str digest;
  idempotency_key = str key;
  base_branch = str (text "main");
}

-- An endpoint that counts its calls and knows one pull request.
abbrev endpoint : Endpoint ℕ
endpoint = record {
  publish_pull_request = λ _ n. (ok (mock pull), suc n);
  find_by_idempotency_key = λ _ _ _ n. (ok (some (mock pull)), n);
}

abbrev request : Value
request = dict (
    field (text "process_id") (str (text "process-1")) (
      field (text "operation") (str (text "publish_pull_request")) (
        field (text "repository_id") (str (text "owner/name")) (
          field (text "branch") (str (text "agent/fix")) (
            field (text "base_branch") (str (text "main")) (
              field (text "staged_change_digest") (str digest) (
                field (text "idempotency_key") (str key) (
                  field (text "policy_effect") (str (text "allow"))
                    (field (text "approval_valid") (bool true) end)))))))))

abbrev World : Type 0
World = Journal × (ℕ × ℕ)

abbrev prepared_world : World
prepared_world = (
  (prepare (str (text "process-1")) (str key) (str digest) (str (text "owner/name")) null []).1,
  (0, 0),
)

-- The process crashes after the effect, and recovers.
abbrev crashed_world : World
crashed_world = (execute_publication host (counted endpoint) none true request prepared_world).1

abbrev recovered_world : World
recovered_world =
    (recover_publication host (counted endpoint) (str (text "process-1")) crashed_world).1

prepares_first : Reach host endpoint 0 prepared_world
prepares_first =
    next start
      (prepares (str (text "process-1")) (str key) (str digest) (str (text "owner/name")) null)

recovers_last : Reach host endpoint 0 recovered_world
recovers_last =
    next (next prepares_first (executes none true request)) (recovers (str (text "process-1")))

Reach-paid_example : recovered_world.1.0 ≤ spent recovered_world.0
Reach-paid_example = Reach-paid host endpoint 0 recovers_last

abbrev prepared_row : PublicationRecord
prepared_row = record {
  process_id = text "process-1";
  idempotency_key = key;
  request_digest = digest;
  repository_id = text "owner/name";
  base_branch = some (text "main");
  status = Status.prepared;
  pull_request_id = none;
  pull_request_url = none;
  verified_files_digest = none;
  verified_files_outcome = none;
  verified_branch_commit_sha = none;
  verified_files_observed_at = none;
}

abbrev one_row : World
one_row = (prepared_row ∷ [], (0, 0))

is_prepared :
    prepare (str (text "process-1")) (str key) (str digest) (str (text "owner/name")) null []
    ≡ (ok prepared_row, prepared_row ∷ [])
unfolding prepare text is_name refused_in_base refused_part
is_prepared = refl

prepare-again_example :
    prepare
      (str (text "process-1"))
      (str key)
      (str digest)
      (str (text "owner/name"))
      null
      (prepared_row ∷ [])
    ≡ (ok prepared_row, prepared_row ∷ [])
prepare-again_example =
    prepare-again (str (text "process-1")) (str key) (str digest) (str (text "owner/name")) null []
      (prepared_row ∷ []) prepared_row is_prepared

row_found : find_attempt (text "process-1") one_row.0 ≡ some prepared_row
unfolding find text text_eq
row_found = refl

Steps-keep_example :
    (new : PublicationRecord) × (find_attempt
        (text "process-1")
        (recover_publication host
          (counted endpoint)
          (str (text "process-1"))
          (execute_publication host (counted endpoint) none true request one_row).1).1.0
      ≡ some new)
    × SamePayload host prepared_row new
    × (Status.prepared ≡ Status.completed → new ≡ prepared_row)
Steps-keep_example =
    Steps-keep host endpoint
      (more (more done (executes none true request)) (recovers (str (text "process-1"))))
      (text "process-1") prepared_row row_found

abbrev finished_row : PublicationRecord
finished_row = record prepared_row { status = Status.completed; pull_request_id = some 7 }

recovery_completes : find_attempt (text "process-1") recovered_world.0 ≡ some finished_row
unfolding prepare text is_name refused_in_base refused_part execute_publication recover_publication
    find as_dict has get py_eq
recovery_completes = refl

Reach-receipted_example :
    (pull : PullRequest) × (number : ℕ) × (some 7 ≡ some number)
    × (pull.pull_request_id ≡ int (pos number))
    × (1 ≤ number)
    × Matches finished_row pull
Reach-receipted_example =
    Reach-receipted host endpoint 0 (text "process-1") finished_row recovers_last recovery_completes
      refl

abbrev attempting_row : PublicationRecord
attempting_row = record prepared_row { status = Status.attempting }

abbrev receipt_found : Receipted
receipt_found = record { number = 7; url = none }

receipt_matches : check_receipt host attempting_row (mock pull) ≡ ok receipt_found
unfolding check_receipt text is_name py_eq text_of
receipt_matches = refl

attempting_found : find_attempt (text "process-1") (attempting_row ∷ []) ≡ some attempting_row
unfolding find text text_eq
attempting_found = refl

recover-completes_example :
    recover_publication host endpoint (str (text "process-1")) (attempting_row ∷ [], 3) ≡ (
      ok (completed_row receipt_found attempting_row),
      (
        replace process_of
            (text "process-1")
            (completed_row receipt_found attempting_row)
            (attempting_row ∷ []),
        3,
      ),
    )
unfolding text
recover-completes_example =
    recover-completes host endpoint (text "process-1") (attempting_row ∷ []) attempting_row
      (text "main") (mock pull) receipt_found 3 3 refl attempting_found refl refl refl refl
      receipt_matches

abbrev same_keys : Text
same_keys = text "publish/fix%2Fone/release%2F1/00"

key-parts_example :
    (quote (remove_prefix branch_namespace (text "agent/fix/one"))
      ≡ quote (remove_prefix branch_namespace (text "fix/one")))
    × (quote (text "release/1") ≡ quote (text "release/1"))
    × (text "00" ≡ text "00")
unfolding publication_idempotency_key quote text
key-parts_example =
    key-parts (text "agent/fix/one") (text "release/1") (text "00") (text "fix/one")
      (text "release/1") (text "00") same_keys refl refl
