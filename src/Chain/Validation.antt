-- ===== src/Chain/Validation.antt =====
-- src/app_contracts/chain.py: `validate_chain`, in the order of its tests.
use agent00x.Prelude.{
  Text, text, member_text, Bool, ◌&&◌, not, List, [], ◌∷◌, ◌++◌, Kind, Result, ok, raise_if, ◌>>=◌,
  ◌>>◌, if◌then◌else◌, ◌==◌, length, or_raise,
}
use agent00x.Chain.Delegation.{validate_delegation}
use agent00x.Chain.Members.{chain_error, must_equal, contract, check_shape}
use agent00x.Digests.{sha256_digest}
use agent00x.Host.{Host}
use agent00x.Publication.Keys.{publication_idempotency_key, validate_base_branch}
use agent00x.Values.{
  Value, str, dict, Fields, get, py_eq, is_name, is_str, text_of, fields_of, is_bool, is_true,
}

-- `values.add(value)`
unfoldable pub add_text : Text → List Text → List Text
unfolding member_text
add_text x xs = if member_text x xs then xs else x ∷ xs

-- One contract's turn in the loop of `_binding_values`.
unfoldable pub binding_value : Fields → Text → Text → Result Text
unfolding chain_error contract
binding_value chain field_name name = do
  let value = get (contract chain name) field_name
  chain_error (not (is_str value)) (name ++ text " has non-string binding value")
  chain_error (not (is_name value)) (name ++ text " has empty binding value")
  ok (text_of value)

-- `_binding_values`, from the values of the contracts before
unfoldable pub binding_values : Fields → Text → List Text → List Text → Result (List Text)
unfolding binding_value add_text
binding_values chain field_name [] values = ok values
binding_values chain field_name (name ∷ names) values = do
  value ← binding_value chain field_name name
  binding_values chain field_name names (add_text value values)

-- `_require_single`
unfoldable pub require_single : Text → List Text → Result (Unit {0})
unfolding chain_error
require_single field_name values =
    chain_error (not (length values == 1)) (field_name ++ text " mismatch")

-- `values != {value}`, for the values without repetition
unfoldable pub is_singleton : Text → List Text → Bool
unfolding member_text
is_singleton value values = length values == 1 && member_text value values

abbrev pub process_contracts : List Text
process_contracts =
    text "process_contract"
    ∷ text "staged_change"
    ∷ text "approval"
    ∷ text "intent"
    ∷ text "action_receipt"
    ∷ []

abbrev pub repository_contracts : List Text
repository_contracts =
    text "process_contract"
    ∷ text "staged_change"
    ∷ text "approval"
    ∷ text "intent"
    ∷ text "policy_decision"
    ∷ text "action_receipt"
    ∷ []

abbrev pub digest_contracts : List Text
digest_contracts =
    text "approval" ∷ text "intent" ∷ text "policy_decision" ∷ text "action_receipt" ∷ []

-- `chain[name][k]`
unfoldable pub entry : Fields → Text → Text → Value
unfolding contract
entry chain name k = get (contract chain name) k

-- Process, identities, delegation and repository.
unfoldable pub check_identities : Fields → Result (Unit {0})
unfolding binding_values require_single chain_error entry validate_delegation
check_identities c = do
  process_ids ← binding_values c (text "process_id") process_contracts []
  require_single (text "process_id") process_ids
  must_equal (entry c (text "identity") (text "identity_id"))
      (entry c (text "capability_grant") (text "subject"))
      (text "capability subject identity mismatch")
  chain_error
      (not (
        py_eq (entry c (text "identity") (text "status")) (str (text "active"))
        && py_eq (entry c (text "capability_grant") (text "status")) (str (text "active"))))
      (text "inactive identity or capability grant")
  must_equal (entry c (text "capability_grant") (text "process_id"))
      (entry c (text "process_contract") (text "process_id"))
      (text "capability process_id mismatch")
  must_equal (entry c (text "delegation_receipt") (text "parent_grant_id"))
      (entry c (text "capability_grant") (text "grant_id"))
      (text "delegation parent grant mismatch")
  validate_delegation (contract c (text "capability_grant"))
      (contract c (text "delegation_receipt"))
  must_equal (entry c (text "trust_profile") (text "principal_id"))
      (entry c (text "identity") (text "identity_id")) (text "trust profile principal mismatch")
  repositories ← binding_values c (text "repository_id") repository_contracts []
  require_single (text "repository_id") repositories

-- The envelope, the task and the evidence.
unfoldable pub check_task : Fields → Result (Unit {0})
unfolding chain_error entry
check_task c = do
  must_equal (entry c (text "canonical_envelope") (text "correlation_id"))
      (entry c (text "process_contract") (text "process_id"))
      (text "envelope correlation_id mismatch")
  let tainted =
      get (fields_of (entry c (text "canonical_envelope") (text "security"))) (text "tainted")
  chain_error (not (is_bool tainted)) (text "taint marker is not a boolean")
  chain_error (is_true tainted) (text "tainted envelope cannot authorize publication")
  must_equal (entry c (text "task_contract") (text "process_id"))
      (entry c (text "process_contract") (text "process_id")) (text "task process_id mismatch")
  must_equal (entry c (text "evidence_bundle") (text "task_id"))
      (entry c (text "task_contract") (text "task_id")) (text "evidence task_id mismatch")
  must_equal (entry c (text "evidence_bundle") (text "patch_digest"))
      (entry c (text "staged_change") (text "patch_digest")) (text "patch_digest mismatch")

-- Approval, decision and receipt.
unfoldable pub check_decision : Fields → Result (Unit {0})
unfolding chain_error entry
check_decision c = do
  let approval_id = entry c (text "approval") (text "approval_id")
  chain_error
      (not (
        py_eq (entry c (text "intent") (text "approval_id")) approval_id
        && py_eq (entry c (text "action_receipt") (text "approval_id")) approval_id))
      (text "approval_id mismatch")
  must_equal (entry c (text "action_receipt") (text "policy_decision_id"))
      (entry c (text "policy_decision") (text "decision_id")) (text "policy_decision_id mismatch")
  must_equal (entry c (text "policy_decision") (text "effect")) (str (text "allow"))
      (text "receipt cannot reference a deny decision")

abbrev pub request_fields : List Text
request_fields =
    text "process_id"
    ∷ text "repository_id"
    ∷ text "base_commit"
    ∷ text "staged_change_digest"
    ∷ text "approval_id"
    ∷ text "branch_namespace"
    ∷ text "base_branch"
    ∷ text "title_artifact_ref"
    ∷ text "body_artifact_ref"
    ∷ text "idempotency_key"
    ∷ []

-- `for field in …: if request[field] != intent[field]: raise …`
unfoldable pub request_matches : Fields → Fields → List Text → Result (Unit {0})
request_matches request intent [] = ok tt
request_matches request intent (k ∷ ks) = do
  must_equal (get request k) (get intent k) (text "actuator request " ++ (k ++ text " mismatch"))
  request_matches request intent ks

-- The request against the intent, the decision and the staged change.
unfoldable pub check_request : Fields → Result (Unit {0})
unfolding request_matches entry contract
check_request c = do
  request_matches (contract c (text "actuator_request")) (contract c (text "intent")) request_fields
  must_equal (entry c (text "actuator_request") (text "policy_decision_id"))
      (entry c (text "policy_decision") (text "decision_id"))
      (text "actuator request policy decision mismatch")
  must_equal (entry c (text "actuator_request") (text "patch_artifact_ref"))
      (entry c (text "staged_change") (text "patch_artifact_ref"))
      (text "actuator request patch mismatch")

-- `branch.removeprefix` of a value that is no `str` raises AttributeError.
unfoldable pub expected_key : Value → Value → Text → Result Text
unfolding publication_idempotency_key
expected_key branch base digest = do
  raise_if (not (is_str branch)) Kind.attribute_error
      (text "object has no attribute 'removeprefix'")
  publication_idempotency_key (text_of branch) (text_of base) digest

-- The base branch and the idempotency key, for the digest of the staged change.
unfoldable pub check_key : Fields → Text → Result (Unit {0})
unfolding validate_base_branch entry expected_key
check_key c staged_digest = do
  let base = entry c (text "intent") (text "base_branch")
  or_raise (validate_base_branch base) Kind.contract_validation
      (text "chain: intent base branch is invalid")
  must_equal (entry c (text "actuator_request") (text "base_branch")) base
      (text "actuator request base branch mismatch")
  must_equal (entry c (text "action_receipt") (text "base_branch")) base
      (text "receipt base branch mismatch")
  key ← expected_key (entry c (text "intent") (text "branch_namespace")) base staged_digest
  must_equal (entry c (text "intent") (text "idempotency_key")) (str key)
      (text "intent idempotency key is not content-bound")
  must_equal (entry c (text "action_receipt") (text "idempotency_key")) (str key)
      (text "receipt idempotency key mismatch")

module _ (host : Host) where
  -- `sha256_digest(chain[name])`
  unfoldable pub digest_of : Fields → Text → Result Text
  unfolding contract
  digest_of c name = sha256_digest host.sha256_hex (dict (contract c name))

  -- Evidence, verification and the digest of the staged change, which it returns.
  unfoldable pub check_digests : Fields → Result Text
  unfolding entry digest_of binding_values require_single is_singleton chain_error
  check_digests c = do
    evidence_digest ← digest_of c (text "evidence_bundle")
    must_equal (entry c (text "verification_report") (text "evidence_digest")) (str evidence_digest)
        (text "verification evidence digest mismatch")
    must_equal (entry c (text "staged_change") (text "evidence_digest")) (str evidence_digest)
        (text "staged evidence digest mismatch")
    verification_digest ← digest_of c (text "verification_report")
    must_equal (entry c (text "staged_change") (text "verification_digest"))
        (str verification_digest) (text "verification digest mismatch")
    must_equal (entry c (text "verification_report") (text "verdict")) (str (text "pass"))
        (text "only a passing verification can be staged")
    staged_digest ← digest_of c (text "staged_change")
    referenced ← binding_values c (text "staged_change_digest") digest_contracts []
    require_single (text "staged_change_digest") referenced
    chain_error (not (is_singleton staged_digest referenced))
        (text "staged change digest does not match content")
    ok staged_digest

  -- The credential grant against the request.
  unfoldable pub check_grant : Fields → Result (Unit {0})
  unfolding entry digest_of
  check_grant c = do
    must_equal (entry c (text "credential_use_grant") (text "actuator_id"))
        (entry c (text "actuator_request") (text "actuator_id"))
        (text "credential grant actuator mismatch")
    must_equal (entry c (text "credential_use_grant") (text "repository_id"))
        (entry c (text "actuator_request") (text "repository_id"))
        (text "credential grant repository mismatch")
    request_digest ← digest_of c (text "actuator_request")
    must_equal (entry c (text "credential_use_grant") (text "request_digest")) (str request_digest)
        (text "credential grant request digest mismatch")

  -- `validate_chain`
  unfoldable pub validate_chain : Value → Result (Unit {0})
  unfolding check_shape check_identities check_task check_digests check_decision check_request
      check_grant check_key
  validate_chain chain = do
    c ← check_shape chain
    check_identities c
    check_task c
    staged_digest ← check_digests c
    check_decision c
    check_request c
    check_grant c
    check_key c staged_digest
