-- ===== src/Chain/Members.antt =====
-- src/app_contracts/chain.py: the contracts of a chain and the members that each must have.
use agent00x.Prelude.{
  Text, text, Bool, true, false, ◌&&◌, not, List, [], ◌∷◌, ◌++◌, Kind, Result, ok, raise_if, ◌>>=◌,
  ◌>>◌, if◌then◌else◌,
}
use agent00x.Values.{Value, Fields, get, has, py_eq, as_dict, is_dict, fields_of}

unfoldable pub chain_error : Bool → Text → Result (Unit {0})
chain_error t m = raise_if t Kind.contract_validation (text "chain: " ++ m)

-- `if v != w: raise ContractValidationError(…)`
unfoldable pub must_equal : Value → Value → Text → Result (Unit {0})
unfolding chain_error
must_equal v w m = chain_error (not (py_eq v w)) m

abbrev pub contract_names : List Text
contract_names =
    text "process_contract"
    ∷ text "identity"
    ∷ text "capability_grant"
    ∷ text "delegation_receipt"
    ∷ text "trust_profile"
    ∷ text "canonical_envelope"
    ∷ text "task_contract"
    ∷ text "evidence_bundle"
    ∷ text "verification_report"
    ∷ text "staged_change"
    ∷ text "approval"
    ∷ text "intent"
    ∷ text "policy_decision"
    ∷ text "actuator_request"
    ∷ text "credential_use_grant"
    ∷ text "action_receipt"
    ∷ []

-- `_REQUIRED_MEMBERS`
abbrev pub required_members : List (Text × List Text)
required_members =
    (text "process_contract", text "process_id" ∷ text "repository_id" ∷ [])
    ∷ (text "identity", text "identity_id" ∷ text "status" ∷ [])
    ∷ (
      text "capability_grant",
      text "subject"
          ∷ text "status"
          ∷ text "process_id"
          ∷ text "grant_id"
          ∷ text "delegable_actions"
          ∷ text "resources"
          ∷ text "max_delegation_depth"
          ∷ [],
    )
    ∷ (
      text "delegation_receipt",
      text "parent_grant_id"
          ∷ text "issuer"
          ∷ text "process_id"
          ∷ text "actions"
          ∷ text "resources"
          ∷ text "remaining_delegation_depth"
          ∷ [],
    )
    ∷ (text "trust_profile", text "principal_id" ∷ [])
    ∷ (text "canonical_envelope", text "correlation_id" ∷ text "security" ∷ [])
    ∷ (text "task_contract", text "process_id" ∷ text "task_id" ∷ [])
    ∷ (text "evidence_bundle", text "task_id" ∷ text "patch_digest" ∷ [])
    ∷ (text "verification_report", text "evidence_digest" ∷ text "verdict" ∷ [])
    ∷ (
      text "staged_change",
      text "process_id"
          ∷ text "repository_id"
          ∷ text "patch_digest"
          ∷ text "evidence_digest"
          ∷ text "verification_digest"
          ∷ text "patch_artifact_ref"
          ∷ [],
    )
    ∷ (
      text "approval",
      text "process_id"
          ∷ text "repository_id"
          ∷ text "staged_change_digest"
          ∷ text "approval_id"
          ∷ [],
    )
    ∷ (
      text "intent",
      text "process_id"
          ∷ text "repository_id"
          ∷ text "staged_change_digest"
          ∷ text "approval_id"
          ∷ text "branch_namespace"
          ∷ text "title_artifact_ref"
          ∷ text "body_artifact_ref"
          ∷ text "idempotency_key"
          ∷ text "base_commit"
          ∷ text "base_branch"
          ∷ [],
    )
    ∷ (
      text "policy_decision",
      text "repository_id" ∷ text "staged_change_digest" ∷ text "decision_id" ∷ text "effect" ∷ [],
    )
    ∷ (
      text "actuator_request",
      text "process_id"
          ∷ text "repository_id"
          ∷ text "base_commit"
          ∷ text "staged_change_digest"
          ∷ text "approval_id"
          ∷ text "branch_namespace"
          ∷ text "title_artifact_ref"
          ∷ text "body_artifact_ref"
          ∷ text "idempotency_key"
          ∷ text "policy_decision_id"
          ∷ text "patch_artifact_ref"
          ∷ text "actuator_id"
          ∷ text "base_branch"
          ∷ [],
    )
    ∷ (
      text "credential_use_grant",
      text "actuator_id" ∷ text "repository_id" ∷ text "request_digest" ∷ [],
    )
    ∷ (
      text "action_receipt",
      text "process_id"
          ∷ text "repository_id"
          ∷ text "staged_change_digest"
          ∷ text "approval_id"
          ∷ text "policy_decision_id"
          ∷ text "idempotency_key"
          ∷ text "base_branch"
          ∷ [],
    )
    ∷ []

-- `[name for name in names if not p(name)]`
unfoldable pub failing : (Text → Bool) → List Text → List Text
failing p [] = []
failing p (x ∷ xs) = let rest = failing p xs in if p x then rest else x ∷ rest

is_empty_list : List Text → Bool
is_empty_list [] = true
is_empty_list (_ ∷ _) = false

-- The `repr` of a list of names, which hold no quotes.
unfoldable pub repr_names : List Text → Text
repr_names [] = text "[]"
repr_names (x ∷ xs) = text "['" ++ (x ++ rest xs)
  where
    rest : List Text → Text
    rest [] = text "']"
    rest (y ∷ ys) = text "', '" ++ (y ++ rest ys)

-- `chain[name]`, a dict once the tests have passed
unfoldable pub contract : Fields → Text → Fields
contract chain name = fields_of (get chain name)

-- The inner loop of `_require_members`.
unfoldable pub members_present : Text → Fields → List Text → Result (Unit {0})
unfolding chain_error
members_present name member [] = ok tt
members_present name member (k ∷ ks) = do
  chain_error (not (has member k)) (name ++ (text " is missing " ++ k))
  members_present name member ks

unfoldable pub all_members : Fields → List (Text × List Text) → Result (Unit {0})
unfolding members_present contract
all_members chain [] = ok tt
all_members chain ((name, ks) ∷ rest) = do
  members_present name (contract chain name) ks
  all_members chain rest

-- `_require_members`
unfoldable pub require_members : Fields → Result (Unit {0})
unfolding all_members chain_error contract
require_members chain = do
  all_members chain required_members
  let security = get (contract chain (text "canonical_envelope")) (text "security")
  chain_error (not (is_dict security && has (fields_of security) (text "tainted")))
      (text "canonical_envelope is missing security.tainted")

-- The tests on the classes of the chain and of its contracts.
unfoldable pub check_shape : Value → Result Fields
unfolding chain_error failing is_empty_list repr_names require_members
check_shape chain = do
  c ← as_dict chain Kind.contract_validation (text "chain: chain is malformed")
  let missing = failing (has c) contract_names
  chain_error (not (is_empty_list missing)) (text "missing contracts " ++ repr_names missing)
  let malformed = failing (λ name. is_dict (get c name)) contract_names
  chain_error (not (is_empty_list malformed)) (text "malformed contracts " ++ repr_names malformed)
  require_members c
  ok c
