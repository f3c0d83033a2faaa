-- ===== src/Authority.antt =====
-- src/app_contracts/authority.py: approvals bound to one publication, and the allowlist policy.
pub mod Policy
pub mod Binding
pub mod Allow
use agent00x.Prelude.{
  ℕ, zero, suc, ◌+◌, ◌*◌, Text, text, text_eq, member_text, starts_with, Bool, true, false, ◌&&◌,
  ◌||◌, not, Option, none, some, List, [], ◌∷◌, ◌++◌, Kind, Result, ok, err, raise_if, ◌>>=◌, ◌>>◌,
  if◌then◌else◌, ltb, leb, ◌==◌, length,
}
use agent00x.Clock.{DateTime}
use agent00x.Digests.{sha256_digest}
use agent00x.Host.{Host}
use agent00x.Values.{
  Value, null, bool, int, str, dict, pos, Fields, get, has, py_eq, is_name, is_str, text_of,
  as_dict,
}
use agent00x.Workflow.{Object, instance_of, foreign}

-- `_require_digest`
unfoldable pub require_digest : Value → Text → Result Text
require_digest v m = if is_name v then ok (text_of v) else err Kind.contract_validation m

-- `_require_clock`
unfoldable pub require_clock : Object DateTime → Result ℕ
require_clock foreign = err Kind.contract_validation (text "authority: clock is invalid")
require_clock (instance_of t) =
    if t.aware
    then ok t.instant
    else err Kind.contract_validation (text "authority: clock is invalid")

-- `value.replace("Z", "+00:00")`
unfoldable pub replace_zulu : Text → Text
replace_zulu [] = []
replace_zulu (c ∷ s) =
    let rest = replace_zulu s in if c == 90 then text "+00:00" ++ rest else c ∷ rest

abbrev pub bound_fields : List Text
bound_fields = text "process_id" ∷ text "repository_id" ∷ text "operation" ∷ text "approval_id" ∷ []

-- `for field in …: if field not in approval or field not in intent`
unfoldable pub both_present : Fields → Fields → List Text → Result (Unit {0})
both_present a i [] = ok tt
both_present a i (k ∷ ks) = do
  raise_if (not (has a k && has i k)) Kind.contract_validation
      (text "approval: " ++ (k ++ text " is missing"))
  both_present a i ks

-- `for field in required_matches`
unfoldable pub all_match : Fields → Fields → List Text → Result (Unit {0})
all_match a i [] = ok tt
all_match a i (k ∷ ks) = do
  raise_if (not (is_name (get a k) && is_name (get i k))) Kind.contract_validation
      (text "approval: " ++ (k ++ text " is invalid"))
  raise_if (not (py_eq (get a k) (get i k))) Kind.contract_validation
      (text "approval: " ++ (k ++ text " mismatch"))
  all_match a i ks

unfoldable pub need : Fields → Text → Result (Unit {0})
need d k =
    raise_if (not (has d k)) Kind.contract_validation
      (text "approval: " ++ (k ++ text " is missing"))

-- `type(v) is int and v == 1`
unfoldable pub is_version_one : Value → Bool
is_version_one (int (pos n)) = n == 1
is_version_one _ = false

module _ (host : Host) where
  -- `_parse_time`; `none` where it raises ValueError
  unfoldable pub parse_time : Text → Option DateTime
  unfolding replace_zulu
  parse_time s = host.from_isoformat (replace_zulu s)

  aware_moment : Option DateTime → Kind → Text → Result ℕ
  aware_moment none k m = err k m
  aware_moment (some t) k m = if t.aware then ok t.instant else err k m

  -- `_require_expiry`
  unfoldable pub require_expiry : Fields → Text → Text → Result ℕ
  unfolding parse_time aware_moment
  require_expiry d label name = do
    raise_if (not (is_str (get d name))) Kind.contract_validation
        (text "approval: " ++ (label ++ text " is invalid"))
    aware_moment (parse_time (text_of (get d name))) Kind.contract_validation
        (text "approval: " ++ (label ++ text " is invalid"))

  -- `check_intent_approved`
  unfoldable pub check_intent_approved : Value → Fields → Result (Unit {0})
  unfolding require_digest
  check_intent_approved intent approval = do
    approved ←
        require_digest (get approval (text "approved_intent_digest"))
          (text "approval: approved intent digest is invalid")
    actual ← sha256_digest host.sha256_hex intent
    raise_if (not (text_eq approved actual)) Kind.contract_validation
        (text "approval: approved intent digest mismatch")

  -- The part of `validate_approval` on classes, presence and identities.
  unfoldable pub check_identities : Fields → Fields → Result (Unit {0})
  unfolding both_present need all_match
  check_identities a i = do
    both_present a i bound_fields
    need a (text "approver_id")
    need a (text "policy_version")
    need a (text "approved_at")
    need a (text "expires_at")
    need i (text "expires_at")
    all_match a i bound_fields
    raise_if (not (is_name (get a (text "approver_id")))) Kind.contract_validation
        (text "approval: approver_id is invalid")

  -- The part of `validate_approval` on digests.
  unfoldable pub check_digests : Fields → Fields → Text → Result (Unit {0})
  unfolding require_digest check_intent_approved
  check_digests a i staged_digest = do
    approved ←
        require_digest (get a (text "staged_change_digest"))
          (text "approval: staged change digest is invalid")
    raise_if (not (text_eq approved staged_digest)) Kind.contract_validation
        (text "approval: staged change digest mismatch")
    intended ←
        require_digest (get i (text "staged_change_digest"))
          (text "approval: intent staged change digest is invalid")
    raise_if (not (text_eq intended staged_digest)) Kind.contract_validation
        (text "approval: intent staged change digest mismatch")
    check_intent_approved (dict i) a

  -- The part of `validate_approval` on times.
  unfoldable pub check_times : Fields → Fields → ℕ → Result (Unit {0})
  unfolding require_expiry
  check_times a i moment = do
    approved_at ← require_expiry a (text "approval time") (text "approved_at")
    raise_if (ltb moment approved_at) Kind.contract_validation
        (text "approval: approval time is in the future")
    expires_at ← require_expiry a (text "expiry") (text "expires_at")
    raise_if (leb expires_at moment) Kind.contract_validation (text "approval: expired")
    raise_if (leb expires_at approved_at) Kind.contract_validation
        (text "approval: approval time is invalid")
    intent_expiry ← require_expiry i (text "intent expiry") (text "expires_at")
    raise_if (leb intent_expiry moment) Kind.contract_validation (text "approval: intent expired")

  -- `validate_approval`
  unfoldable pub validate_approval :
      Value → Value → Value → Text → Object DateTime → Result (Unit {0})
  unfolding require_clock is_version_one check_identities check_digests check_times
  validate_approval approval staged_change intent policy_version now = do
    a ← as_dict approval Kind.contract_validation (text "approval: binding root is malformed")
    i ← as_dict intent Kind.contract_validation (text "approval: binding root is malformed")
    s ← as_dict staged_change Kind.contract_validation (text "approval: binding root is malformed")
    moment ← require_clock now
    raise_if (not (is_version_one (get a (text "schema_version")))) Kind.contract_validation
        (text "approval: schema version is invalid")
    staged_digest ← sha256_digest host.sha256_hex (dict s)
    check_identities a i
    check_digests a i staged_digest
    raise_if (not (py_eq (get a (text "policy_version")) (str policy_version)))
        Kind.contract_validation (text "approval: policy version mismatch")
    check_times a i moment

  usable_fields : Fields → ℕ → Result (Unit {0})
  unfolding parse_time aware_moment
  usable_fields d moment = do
    raise_if (not (is_str (get d (text "expires_at")))) Kind.contract_validation
        (text "decision: expiry is invalid")
    expires_at ←
        aware_moment (parse_time (text_of (get d (text "expires_at")))) Kind.contract_validation
          (text "decision: expiry is invalid")
    raise_if (not (py_eq (get d (text "effect")) (str (text "allow")))) Kind.contract_validation
        (text "decision: not allow")
    raise_if (leb expires_at moment) Kind.contract_validation (text "decision: expired")

  -- `check_decision_usable`
  unfoldable pub check_decision_usable : Value → Object DateTime → Result (Unit {0})
  unfolding require_clock usable_fields
  check_decision_usable decision now = do
    moment ← require_clock now
    d ← as_dict decision Kind.contract_validation (text "decision: decision is malformed")
    usable_fields d moment
