-- ===== src/Publication/Actuator.antt =====
-- src/app_contracts/actuator.py: the one way from an allow decision to the endpoint.
use agent00x.Prelude.{
  or_raise, Text, text, text_eq, Bool, true, false, ◌||◌, not, List, [], ◌∷◌, ◌++◌, Kind, Result,
  ok, err, raise_if, ◌>>=◌, ◌>>◌, Outcome,
}
use agent00x.Authority.{check_decision_usable, check_intent_approved}
use agent00x.Clock.{DateTime}
use agent00x.Gateway.{GatewayDecision, GatewayPath, slow}
use agent00x.Host.{Host}
use agent00x.Publication.Execution.{Endpoint, all_named}
use agent00x.Publication.Keys.{publication_idempotency_key, validate_base_branch}
use agent00x.Publication.Receipts.{Receipt}
use agent00x.Values.{
  is_true, Value, null, str, Fields, end, field, get, py_eq, text_of, as_dict, item,
}
use agent00x.Workflow.{Object, as_instance}

abbrev identity_fields : List Text
identity_fields =
    text "actuator_id"
    ∷ text "operation"
    ∷ text "repository_id"
    ∷ text "branch_namespace"
    ∷ text "base_branch"
    ∷ text "staged_change_digest"
    ∷ text "idempotency_key"
    ∷ []

abbrev pub decision_fields : List Text
decision_fields = text "operation" ∷ text "repository_id" ∷ text "staged_change_digest" ∷ []

abbrev pub intent_fields : List Text
intent_fields = text "branch_namespace" ∷ text "base_branch" ∷ text "idempotency_key" ∷ []

unfoldable pub actuator_error : Bool → Text → Result (Unit {0})
actuator_error t m = raise_if t Kind.contract_validation (text "actuator: " ++ m)

unfoldable pub is_null : Value → Bool
is_null null = true
is_null _ = false

unfoldable pub is_slow : GatewayPath → Bool
is_slow slow = true
is_slow _ = false

-- `for field in …: if record[field] != actuator_request[field]: raise …`
unfoldable pub fields_match : Text → Fields → Fields → List Text → Result (Unit {0})
unfolding actuator_error
fields_match label d r [] = ok tt
fields_match label d r (k ∷ ks) = do
  v ← item d k
  actuator_error (not (py_eq v (get r k))) (label ++ (k ++ text " mismatch"))
  fields_match label d r ks

-- The tests on the request alone.
unfoldable pub check_request : Value → Value → Value → Result Fields
unfolding actuator_error is_null all_named
check_request actuator_request approval approval_valid = do
  actuator_error (is_null approval) (text "approval is required")
  actuator_error (not (is_true approval_valid)) (text "approval proof is invalid")
  r ← as_dict actuator_request Kind.contract_validation (text "actuator: request is malformed")
  actuator_error (not (all_named r identity_fields)) (text "request identity is invalid")
  actuator_error (not (py_eq (get r (text "operation")) (str (text "publish_pull_request"))))
      (text "operation is not registered")
  ok r

-- The tests on the branch and the key.
unfoldable pub check_key : Fields → Result (Unit {0})
unfolding actuator_error validate_base_branch publication_idempotency_key text_eq
check_key r = do
  or_raise (validate_base_branch (get r (text "base_branch"))) Kind.contract_validation
      (text "actuator: base branch is invalid")
  expected_key ←
      publication_idempotency_key (text_of (get r (text "branch_namespace")))
        (text_of (get r (text "base_branch"))) (text_of (get r (text "staged_change_digest")))
  actuator_error (not (text_eq (text_of (get r (text "idempotency_key"))) expected_key))
      (text "idempotency key does not match publication intent")

unfoldable pub boundary_request : Fields → Value → Value → Fields
boundary_request r effect approval_valid = field (text "operation") (get r (text "operation")) (
    field (text "repository_id") (get r (text "repository_id")) (
      field (text "branch") (get r (text "branch_namespace")) (
        field (text "base_branch") (get r (text "base_branch")) (
          field (text "staged_change_digest") (get r (text "staged_change_digest")) (
            field (text "idempotency_key") (get r (text "idempotency_key")) (
              field (text "policy_effect") effect
                (field (text "approval_valid") approval_valid end)))))))

module _ (host : Host) where
  -- Everything before the call of the endpoint; it returns the request of the call.
  unfoldable pub authorize :
      Value
      → Value
      → Value
      → Object GatewayDecision
      → Value
      → Object DateTime
      → Value
      → Result Fields
  unfolding check_request fields_match check_key boundary_request actuator_error is_slow
  authorize actuator_request policy_decision approval_valid gateway_decision intent now approval =
      do
        r ← check_request actuator_request approval approval_valid
        g ←
            as_instance gateway_decision Kind.contract_validation
              (text "actuator: gateway decision is malformed")
        check_decision_usable host policy_decision now
        a ← as_dict approval Kind.attribute_error (text "object has no attribute 'get'")
        check_intent_approved host intent a
        actuator_error (not g.allowed || not (is_slow g.path))
            (text "gateway has not authorized slow path")
        d ← as_dict policy_decision Kind.type_error (text "object is not subscriptable")
        effect ← item d (text "effect")
        actuator_error (not (py_eq effect (str (text "allow"))))
            (text "policy decision is not allow")
        fields_match (text "policy decision ") d r decision_fields
        i ← as_dict intent Kind.type_error (text "object is not subscriptable")
        fields_match (text "approved intent ") i r intent_fields
        check_key r
        ok (boundary_request r effect approval_valid)

  -- `publish_authorized_request`
  unfoldable pub publish_authorized_request :
      {E : Type 0}
      → Endpoint E
      → Value
      → Value
      → Value
      → Object GatewayDecision
      → Value
      → Object DateTime
      → Value
      → E
      → Outcome E Receipt
  unfolding authorize
  publish_authorized_request endpoint actuator_request policy_decision approval_valid
        gateway_decision intent now approval e =
      elim (authorize actuator_request policy_decision approval_valid gateway_decision intent now
        approval) [
          | err k m ↦ (err k m, e)
          | ok boundary ↦ endpoint.publish_pull_request boundary e
        ]
