-- ===== src/Gateway.antt =====
-- src/app_contracts/gateway.py: the risk classifier in front of every request, and its audit.
pub mod Safety
use agent00x.Prelude.{
  Text, text, text_eq, member_text, starts_with, Bool, true, false, ◌&&◌, ◌||◌, not, Option, List,
  [], ◌∷◌, Kind, Result, ok, err, Outcome, raise_if, ◌>>=◌, ◌>>◌, if◌then◌else◌,
}
use agent00x.Values.{
  Value, Fields, get, has, is_bool, is_true, is_name, is_dict, fields_of, text_of, as_dict,
}

pub data GatewayPath : Type 0 where
  fast slow degraded : GatewayPath

pub record GatewayDecision : Type 0 where
  pub path : GatewayPath
  pub allowed : Bool
  pub reason_codes : List Text

-- `envelope[section][name]`, where the shape has been checked
unfoldable pub value_at : Fields → Text → Text → Value
value_at envelope section name = get (fields_of (get envelope section)) name

-- `isinstance(envelope.get(section), dict) and field in envelope[section]`
unfoldable pub present : Fields → Text → Text → Bool
present envelope section name =
    is_dict (get envelope section) && has (fields_of (get envelope section)) name

-- The loop over `_REQUIRED_ENVELOPE_FIELDS`.
unfoldable pub envelope_present : Fields → Bool
unfolding present
envelope_present e =
    present e (text "intent") (text "operation")
    && (present e (text "destination") (text "port")
        && (present e (text "source") (text "protocol")
            && (present e (text "security") (text "tainted")
                && present e (text "security") (text "sensitivity"))))

-- The tests of `_require_envelope_shape` on the values.
unfoldable pub envelope_typed : Fields → Bool
unfolding value_at
envelope_typed e =
    is_name (value_at e (text "intent") (text "operation"))
    && (is_name (value_at e (text "destination") (text "port"))
        && (is_name (value_at e (text "source") (text "protocol"))
            && (is_bool (value_at e (text "security") (text "tainted"))
                && is_name (value_at e (text "security") (text "sensitivity")))))

malformed : Text
malformed = text "gateway: envelope is malformed"

-- `_require_envelope_shape`; it returns the envelope's entries.
unfoldable pub require_envelope_shape : Value → Result Fields
unfolding envelope_present envelope_typed malformed
require_envelope_shape envelope = do
  e ← as_dict envelope Kind.contract_validation malformed
  raise_if (not (envelope_present e && envelope_typed e)) Kind.contract_validation malformed
  ok e

-- `_require_audit_shape`, where `.get` on an envelope that is no dict is an AttributeError
unfoldable pub require_audit_shape : Value → Result Fields
unfolding present value_at malformed
require_audit_shape envelope = do
  e ← as_dict envelope Kind.attribute_error (text "get")
  raise_if (not (is_name (get e (text "correlation_id")))) Kind.contract_validation malformed
  raise_if
      (not (
        present e (text "source") (text "principal_id")
        && present e (text "payload") (text "content_digest")))
      Kind.contract_validation malformed
  raise_if
      (not (
        is_name (value_at e (text "source") (text "principal_id"))
        && is_name (value_at e (text "payload") (text "content_digest"))))
      Kind.contract_validation malformed
  ok e

-- `operation in _READ_ONLY_OPERATIONS`
unfoldable pub read_only : Text → Bool
read_only operation = member_text operation (
    text "repository.read"
    ∷ text "workspace.read"
    ∷ text "artifact.read"
    ∷ text "evidence.read"
    ∷ [])

-- `port in _SLOW_PORTS`
unfoldable pub slow_port : Text → Bool
slow_port port = member_text port (text "tool" ∷ text "approval" ∷ text "credential-operation" ∷ [])

-- `operation.startswith(_PRIVILEGE_PREFIXES)`
unfoldable pub privileged : Text → Bool
privileged operation =
    starts_with (text "capability.") operation
    || (starts_with (text "identity.") operation || starts_with (text "delegation.") operation)

-- `sensitivity in {"confidential", "restricted"}`
unfoldable pub sensitive : Text → Bool
sensitive level = member_text level (text "confidential" ∷ text "restricted" ∷ [])

-- What `classify` reads of an envelope.
pub record Request : Type 0 where
  pub operation : Text
  pub port : Text
  pub protocol : Text
  pub tainted : Bool
  pub sensitivity : Text

unfoldable pub request_of : Fields → Request
unfolding value_at
request_of e = record {
  operation = text_of (value_at e (text "intent") (text "operation"));
  port = text_of (value_at e (text "destination") (text "port"));
  protocol = text_of (value_at e (text "source") (text "protocol"));
  tainted = is_true (value_at e (text "security") (text "tainted"));
  sensitivity = text_of (value_at e (text "security") (text "sensitivity"));
}

-- `if test: reasons.append(reason)`
unfoldable pub reason_if : Bool → Text → List Text → List Text
reason_if true reason rest = reason ∷ rest
reason_if false reason rest = rest

-- The reasons that `classify` collects, in its order.
unfoldable pub reasons : Request → List Text
unfolding reason_if
reasons r = reason_if r.tainted (text "tainted-content") (
    reason_if (not (text_eq r.protocol (text "internal"))) (text "protocol-boundary") (
      reason_if (slow_port r.port) (text "sensitive-port") (
        reason_if (privileged r.operation) (text "privilege-transition") (
          reason_if (not (read_only r.operation)) (text "write-or-unknown-operation")
            (reason_if (sensitive r.sensitivity) (text "sensitive-data") [])))))

decide_reasons : List Text → GatewayDecision
decide_reasons [] = record {
  path = fast;
  allowed = true;
  reason_codes = text "internal-read-only" ∷ [];
}
decide_reasons (r ∷ rs) = record { path = slow; allowed = true; reason_codes = r ∷ rs }

-- `classify` after its tests of shape.
unfoldable pub decide : Request → Bool → GatewayDecision
unfolding decide_reasons reasons
decide r policy_available =
    if not policy_available
    then if read_only r.operation
      then record {
        path = degraded;
        allowed = true;
        reason_codes = text "policy-unavailable" ∷ text "read-only-allowlist" ∷ [];
      }
      else record {
        path = degraded;
        allowed = false;
        reason_codes = text "policy-unavailable" ∷ text "write-or-unknown-denied" ∷ [];
      }
    else if r.tainted && not (read_only r.operation)
    then record {
      path = slow;
      allowed = false;
      reason_codes = text "tainted-content" ∷ text "authorization-denied" ∷ [];
    }
    else decide_reasons (reasons r)

unfoldable pub classify : Value → Value → Result GatewayDecision
unfolding require_envelope_shape
classify envelope policy_available = do
  e ← require_envelope_shape envelope
  raise_if (not (is_bool policy_available)) Kind.contract_validation
      (text "gateway: policy availability is invalid")
  ok (decide (request_of e) (is_true policy_available))

-- The classes that `enforce` catches while it classifies.
unfoldable pub caught : Kind → Bool
caught Kind.contract_validation = true
caught Kind.key_error = true
caught Kind.type_error = true
caught Kind.attribute_error = true
caught _ = false

-- What `enforce` hands to `append_audit_event`.
pub record GatewayEvent : Type 0 where
  pub process_id : Text
  pub actor_id : Text
  pub event_type : Text
  pub input_digest : Text
  pub result : Text
  pub reason_codes : List Text

unfoldable pub event_of : Fields → GatewayDecision → GatewayEvent
unfolding value_at
event_of e d = record {
  process_id = text_of (get e (text "correlation_id"));
  actor_id = text_of (value_at e (text "source") (text "principal_id"));
  event_type = text "gateway.request";
  input_digest = text_of (value_at e (text "payload") (text "content_digest"));
  result = if d.allowed then text "allowed" else text "denied";
  reason_codes = d.reason_codes;
}

denied : Text → GatewayDecision
denied reason = record { path = degraded; allowed = false; reason_codes = reason ∷ [] }

classified : Value → Value → Result (Fields × GatewayDecision)
unfolding require_audit_shape classify
classified envelope policy_available = do
  e ← require_audit_shape envelope
  d ← classify envelope policy_available
  ok (e, d)

-- The audit sink is any object: a call leaves it in a state, and returns or raises.
module _ {S : Type 0} (sink : GatewayEvent → S → Outcome S (Unit {0})) where
  after_audit : GatewayDecision → Outcome S (Unit {0}) → Outcome S GatewayDecision
  unfolding denied
  after_audit d (ok _, s) = (ok d, s)
  after_audit d (err _ _, s) = (ok (denied (text "audit-sink-unavailable")), s)

  enforce_classified : Result (Fields × GatewayDecision) → S → Outcome S GatewayDecision
  unfolding after_audit event_of caught denied
  enforce_classified (ok (e, d)) s = after_audit d (sink (event_of e d) s)
  enforce_classified (err k m) s =
      (if caught k then ok (denied (text "malformed-envelope")) else err k m, s)

  unfoldable pub enforce : Value → Value → S → Outcome S GatewayDecision
  unfolding enforce_classified classified
  enforce envelope policy_available s = enforce_classified (classified envelope policy_available) s
