-- ===== src/Publication/MockGithub.antt =====
-- src/app_contracts/mock_github.py: the endpoint in memory, its pull requests the newest first.
use agent00x.Prelude.{
  or_raise, ℕ, ◌+◌, Text, text, text_eq, starts_with, Bool, false, ◌&&◌, ◌||◌, not, Option, none,
  some, List, [], ◌∷◌, Kind, Result, ok, err, raise_if, ◌>>=◌, ◌>>◌, if◌then◌else◌, leb, ◌==◌,
  length, is_empty_text, Outcome,
}
use agent00x.ApprovalSignature.{has_all}
use agent00x.Digests.Shape.{is_digest}
use agent00x.Publication.Execution.{boundary_fields, all_named}
use agent00x.Publication.Keys.{publication_idempotency_key, validate_base_branch}
use agent00x.Tables.{find}
use agent00x.Values.{is_true, size, Value, str, Fields, get, py_eq, text_of, as_dict}

pub record MockPullRequest : Type 0 where
  pub pull_request_id : ℕ
  pub repository_id : Text
  pub branch : Text
  pub staged_change_digest : Text
  pub idempotency_key : Text
  pub base_branch : Text

abbrev pub key_of : MockPullRequest → Text
key_of p = p.idempotency_key

-- What a valid request asks for.
pub record Publication : Type 0 where
  pub repository_id : Text
  pub branch : Text
  pub staged_change_digest : Text
  pub idempotency_key : Text
  pub base_branch : Text

abbrev pub checked_fields : List Text
checked_fields =
    text "repository_id"
    ∷ text "branch"
    ∷ text "base_branch"
    ∷ text "staged_change_digest"
    ∷ text "idempotency_key"
    ∷ []

unfoldable pub publication_of : Fields → Publication
publication_of r = record {
  repository_id = text_of (get r (text "repository_id"));
  branch = text_of (get r (text "branch"));
  staged_change_digest = text_of (get r (text "staged_change_digest"));
  idempotency_key = text_of (get r (text "idempotency_key"));
  base_branch = text_of (get r (text "base_branch"));
}

-- The tests on the names of a publication, from its branch on.
unfoldable pub check_publication : Publication → Result (Unit {0})
unfolding starts_with validate_base_branch is_digest publication_idempotency_key text_eq
check_publication p = do
  raise_if (not (starts_with (text "agent/") p.branch) || leb (length p.branch) 6)
      Kind.contract_validation (text "mock github: branch is outside the agent namespace")
  or_raise (validate_base_branch (str p.base_branch)) Kind.contract_validation
      (text "mock github: base branch is invalid")
  raise_if (not (is_digest p.staged_change_digest)) Kind.contract_validation
      (text "mock github: digest is malformed")
  expected_key ← publication_idempotency_key p.branch p.base_branch p.staged_change_digest
  raise_if (not (text_eq p.idempotency_key expected_key)) Kind.contract_validation
      (text "mock github: idempotency key mismatch")

-- The tests on the shape and the authority of a request.
unfoldable pub check_boundary : Value → Result Fields
unfolding has_all size all_named
check_boundary request = do
  r ← as_dict request Kind.contract_validation (text "mock github: request shape mismatch")
  raise_if (not (has_all r boundary_fields && size r == 8)) Kind.contract_validation
      (text "mock github: request shape mismatch")
  raise_if (not (py_eq (get r (text "operation")) (str (text "publish_pull_request"))))
      Kind.contract_validation (text "mock github: operation is not registered")
  raise_if
      (not (py_eq (get r (text "policy_effect")) (str (text "allow")))
        || not (is_true (get r (text "approval_valid"))))
      Kind.contract_validation (text "mock github: authority proof is invalid")
  raise_if (not (all_named r checked_fields)) Kind.contract_validation
      (text "mock github: boundary field is invalid")
  ok r

unfoldable pub requested : Value → Result Publication
unfolding check_boundary publication_of check_publication
requested request = do
  r ← check_boundary request
  check_publication (publication_of r)
  ok (publication_of r)

-- The pull request was opened for this publication.
unfoldable pub is_for : Publication → MockPullRequest → Bool
unfolding text_eq
is_for p existing =
    text_eq existing.repository_id p.repository_id
    && (text_eq existing.branch p.branch
        && (text_eq existing.base_branch p.base_branch
            && text_eq existing.staged_change_digest p.staged_change_digest))

unfoldable pub opened : ℕ → Publication → MockPullRequest
opened n p = record {
  pull_request_id = n;
  repository_id = p.repository_id;
  branch = p.branch;
  staged_change_digest = p.staged_change_digest;
  idempotency_key = p.idempotency_key;
  base_branch = p.base_branch;
}

-- The part of `publish_pull_request` from its look-up on.
unfoldable pub open_once :
    Publication → List MockPullRequest → Outcome (List MockPullRequest) MockPullRequest
unfolding find is_for opened
open_once p known = elim (find key_of p.idempotency_key known) [
  | some existing ↦ (
    if is_for p existing
        then ok existing
        else err Kind.contract_validation (text "mock github: idempotency conflict"),
    known,
  )
  | none ↦ (ok (opened (length known + 1) p), opened (length known + 1) p ∷ known)
]

unfoldable pub open_requested :
    Result Publication → List MockPullRequest → Outcome (List MockPullRequest) MockPullRequest
unfolding open_once
open_requested (err k m) known = (err k m, known)
open_requested (ok p) known = open_once p known

-- `MockGitHubEndpoint.publish_pull_request`
unfoldable pub publish_pull_request :
    Value → List MockPullRequest → Outcome (List MockPullRequest) MockPullRequest
unfolding requested open_requested
publish_pull_request request known = open_requested (requested request) known

-- `f(value)` where the optional argument is given
empty_given : Option Text → Bool
empty_given none = false
empty_given (some s) = is_empty_text s

unfoldable pub other_repository : Option Text → MockPullRequest → Bool
unfolding text_eq
other_repository none found = false
other_repository (some repository) found = not (text_eq found.repository_id repository)

-- The pull request, where it stands for this base branch and repository.
unfoldable pub confirmed :
    Text → Option Text → Option Text → MockPullRequest → Result (Option MockPullRequest)
unfolding validate_base_branch publication_idempotency_key text_eq other_repository
confirmed key repository none found =
    ok (if other_repository repository found then none else some found)
confirmed key repository (some base) found = do
  or_raise (validate_base_branch (str base)) Kind.contract_validation
      (text "mock github: lookup base branch is invalid")
  expected ← publication_idempotency_key found.branch base found.staged_change_digest
  ok (
      if not (text_eq expected key)
        || (not (text_eq found.base_branch base) || other_repository repository found)
      then none
      else some found)

unfoldable pub confirm_found :
    Text → Option Text → Option Text → Option MockPullRequest → Result (Option MockPullRequest)
unfolding confirmed
confirm_found key repository base none = ok none
confirm_found key repository base (some found) = confirmed key repository base found

-- `MockGitHubEndpoint.find_by_idempotency_key`
unfoldable pub find_by_idempotency_key :
    Text → Option Text → Option Text → List MockPullRequest → Result (Option MockPullRequest)
unfolding starts_with empty_given find confirm_found
find_by_idempotency_key key repository base known = do
  raise_if (is_empty_text key) Kind.contract_validation (text "mock github: lookup key is invalid")
  raise_if (not (starts_with (text "publish/") key) || leb (length key) 8) Kind.contract_validation
      (text "mock github: lookup key is outside the publication namespace")
  raise_if (empty_given repository) Kind.contract_validation
      (text "mock github: lookup repository is invalid")
  confirm_found key repository base (find key_of key known)
