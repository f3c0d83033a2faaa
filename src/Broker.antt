-- ===== src/Broker.antt =====
-- src/app_contracts/broker.py: credential grants, each scoped to one request and used once.
pub mod Brokered
pub mod Binding
pub mod Gates
pub mod SingleUse
use agent00x.Prelude.{
  ℕ, zero, suc, ◌+◌, ◌-◌, ◌*◌, ◌≤◌, ◌<◌, Text, text, text_eq, member_text, starts_with, Bool, true,
  false, ◌&&◌, ◌||◌, not, Option, none, some, List, [], ◌∷◌, ◌++◌, Kind, Result, ok, err, raise_if,
  ◌>>=◌, ◌>>◌, if◌then◌else◌, ltb, leb, ◌==◌, length, ◌≡◌, ◌≢◌, refl, arith, is_empty_text,
  bind_returns, raise_if_passes, Outcome,
}
use agent00x.ApprovalSignature.{has_all}
use agent00x.Authority.{parse_time}
use agent00x.Clock.{DateTime}
use agent00x.Digests.{sha256_digest}
use agent00x.Host.{Host}
use agent00x.Publication.Execution.{Endpoint}
use agent00x.Values.{
  is_true, Value, null, bool, int, str, list, dict, pos, Fields, end, field, get, has, py_eq,
  is_name, is_str, text_of, as_dict, Items, nil, cons, ℤ, negsuc, ge_ℤ, in_names, is_dict,
  fields_of, item,
}
use agent00x.Workflow.{Object, instance_of, foreign}

abbrev pub required_grant_fields : List Text
required_grant_fields =
    text "credential_grant_id"
    ∷ text "actuator_id"
    ∷ text "repository_id"
    ∷ text "operation"
    ∷ text "request_digest"
    ∷ text "single_use"
    ∷ []

abbrev pub required_request_fields : List Text
required_request_fields =
    text "actuator_id" ∷ text "repository_id" ∷ text "operation" ∷ text "base_branch" ∷ []

abbrev pub identity_fields : List Text
identity_fields = text "actuator_id" ∷ text "repository_id" ∷ text "operation" ∷ []

unfoldable pub broker_error : Bool → Text → Result (Unit {0})
broker_error t m = raise_if t Kind.contract_validation (text "broker: " ++ m)

-- `if not isinstance(v, dict) or any(field not in v …): raise …`
unfoldable pub as_record : Value → List Text → Text → Result Fields
unfolding broker_error has_all
as_record v required m = do
  d ← as_dict v Kind.contract_validation (text "broker: " ++ m)
  broker_error (not (has_all d required)) m
  ok d

-- `for field in …: for mapping in (credential_grant, actuator_request): …`
unfoldable pub bindings_named : Fields → Fields → List Text → Result (Unit {0})
unfolding broker_error
bindings_named g r [] = ok tt
bindings_named g r (k ∷ ks) = do
  broker_error (not (is_name (get g k))) (text "binding value is invalid")
  broker_error (not (is_name (get r k))) (text "binding value is invalid")
  bindings_named g r ks

unfoldable pub aware_clock : Object DateTime → Result ℕ
aware_clock foreign =
    err Kind.contract_validation (text "broker: grant expiry check requires aware time")
aware_clock (instance_of t) =
    if t.aware
    then ok t.instant
    else err Kind.contract_validation (text "broker: grant expiry check requires aware time")

-- The tests that compare the grant with the request.
unfoldable pub check_binding : Fields → Fields → Result Text → Result (Unit {0})
unfolding broker_error
check_binding g r digest = do
  broker_error
      (not (py_eq (get g (text "credential_class")) (str (text "github-app-installation"))))
      (text "credential class mismatch")
  broker_error (not (py_eq (get g (text "actuator_id")) (get r (text "actuator_id"))))
      (text "actuator identity mismatch")
  broker_error (not (py_eq (get g (text "repository_id")) (get r (text "repository_id"))))
      (text "repository mismatch")
  broker_error (not (py_eq (get g (text "operation")) (get r (text "operation"))))
      (text "operation mismatch")
  d ← digest
  broker_error (not (py_eq (get g (text "request_digest")) (str d)))
      (text "request digest mismatch")
  broker_error (not (is_true (get g (text "single_use"))))
      (text "credential grant must be single-use")

unfoldable pub expiry_of : Option DateTime → Result ℕ
expiry_of none = err Kind.contract_validation (text "broker: credential grant expiry is invalid")
expiry_of (some t) =
    if t.aware
    then ok t.instant
    else err Kind.contract_validation (text "broker: credential grant expiry is invalid")

-- A broker of the class `InMemoryCredentialBroker`. `_used_grants` is a set.
pub record Broker : Type 0 where
  pub opened_grants : List Text
  pub used_grants : List Text

-- `_channel_factory`: it makes a channel, or an object without `publish_pull_request`, or raises.
abbrev pub ChannelFactory : Type 0 → Type 0
ChannelFactory E = E → Outcome E (Option (Endpoint E))

-- `__init__` on a callable factory
unfoldable pub new_broker : Broker
new_broker = record { opened_grants = []; used_grants = [] }

unfoldable pub spend : Text → Broker → Broker
spend grant_id b = record {
  opened_grants = b.opened_grants ++ grant_id ∷ [];
  used_grants = grant_id ∷ b.used_grants;
}

-- What follows the call of the factory.
unfoldable pub opened :
    {E : Type 0}
    → Text
    → Broker
    → Outcome E (Option (Endpoint E))
    → Outcome (Broker × E) (Endpoint E)
unfolding spend
opened grant_id b (err k m, e) = (err k m, (b, e))
opened grant_id b (ok none, e) =
    (err Kind.contract_validation (text "broker: channel factory result is invalid"), (b, e))
opened grant_id b (ok (some channel), e) = (ok channel, (spend grant_id b, e))

module _ (host : Host) where
  -- The tests on the time for which the grant stands.
  unfoldable pub check_lifetime : Fields → ℕ → Result (Unit {0})
  unfolding broker_error expiry_of parse_time
  check_lifetime g moment = do
    broker_error (not (is_str (get g (text "expires_at"))))
        (text "credential grant expiry is invalid")
    expires_at ← expiry_of (parse_time host (text_of (get g (text "expires_at"))))
    broker_error (leb expires_at moment) (text "credential grant expired")

  -- `validate_credential_use_grant`; it returns the grant's entries.
  unfoldable pub validate_credential_use_grant : Value → Value → Object DateTime → Result Fields
  unfolding aware_clock as_record bindings_named check_binding check_lifetime
  validate_credential_use_grant credential_grant actuator_request now = do
    moment ← aware_clock now
    g ← as_record credential_grant required_grant_fields (text "credential grant is malformed")
    r ← as_record actuator_request required_request_fields (text "actuator request is malformed")
    bindings_named g r identity_fields
    broker_error (not (is_name (get r (text "base_branch")))) (text "binding value is invalid")
    broker_error (not (is_name (get g (text "credential_grant_id"))))
        (text "binding value is invalid")
    check_binding g r (sha256_digest host.sha256_hex (dict r))
    check_lifetime g moment
    ok g

  -- `open_github_publication_channel`
  unfoldable pub open_github_publication_channel :
      {E : Type 0}
      → ChannelFactory E
      → Value
      → Value
      → Object DateTime
      → Broker × E
      → Outcome (Broker × E) (Endpoint E)
  unfolding validate_credential_use_grant opened member_text
  open_github_publication_channel factory credential_grant actuator_request now (b, e) =
      elim (validate_credential_use_grant credential_grant actuator_request now) [
        | err k m ↦ (err k m, (b, e))
        | ok g ↦
            if member_text (text_of (get g (text "credential_grant_id"))) b.used_grants
            then (
              err Kind.contract_validation (text "broker: credential grant already used"),
              (b, e),
            )
            else opened (text_of (get g (text "credential_grant_id"))) b (factory e)
      ]
