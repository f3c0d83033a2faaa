-- ===== src/Authority/Policy.antt =====
-- `PolicyConfig` and `DeterministicPolicy.decide` of src/app_contracts/authority.py.
use agent00x.Prelude.{
  ℕ, zero, suc, ◌+◌, ◌-◌, ◌*◌, Text, text, text_eq, starts_with, Bool, true, false, ◌&&◌, ◌||◌, not,
  Option, none, some, List, [], ◌∷◌, ◌++◌, Kind, Result, ok, err, raise_if, ◌>>=◌, ◌>>◌,
  if◌then◌else◌, ◌==◌, length, is_empty_text,
}
use agent00x.ApprovalSignature.{verify_approval_signature}
use agent00x.Authority.{int, py_eq, get, pos, dict, err, ok, validate_approval, require_clock}
use agent00x.Clock.{DateTime}
use agent00x.Digests.{sha256_digest}
use agent00x.Host.{Host}
use agent00x.Values.{
  Value, int, str, list, dict, pos, Fields, end, field, get, py_eq, is_name, text_of, as_dict,
  Items, nil, cons, ℤ, negsuc, ge_ℤ, in_names, is_dict, fields_of,
}
use agent00x.Workflow.{Object}

-- `PolicyConfig`, its sets as lists and its mapping as an association list
pub record PolicyConfig : Type 0 where
  pub version : Text
  pub allowed_repositories : List Text
  pub allowed_actuators : List Text
  pub allowed_approver_ids : List Text
  pub trusted_approver_public_keys : List (Text × List ℕ)
  pub decision_ttl_seconds : ℤ

unfoldable pub key_of : Text → List (Text × List ℕ) → Option (List ℕ)
unfolding text_eq
key_of name [] = none
key_of name ((known, key) ∷ keys) = if text_eq known name then some key else key_of name keys

unfoldable pub names_valid : List Text → Bool
names_valid [] = true
names_valid (n ∷ ns) = not (is_empty_text n) && names_valid ns

unfoldable pub members_valid : List Text → Bool
unfolding names_valid
members_valid [] = false
members_valid (n ∷ ns) = names_valid (n ∷ ns)

unfoldable pub keys_valid : List (Text × List ℕ) → Bool
keys_valid [] = true
keys_valid ((name, key) ∷ keys) = not (is_empty_text name) && (length key == 32 && keys_valid keys)

unfoldable pub have_keys : List Text → List (Text × List ℕ) → Bool
unfolding key_of
have_keys [] keys = true
have_keys (n ∷ ns) keys = elim (key_of n keys) [ none ↦ false | some _ ↦ have_keys ns keys ]

no_keys : List (Text × List ℕ) → Bool
no_keys [] = true
no_keys (_ ∷ _) = false

-- `PolicyConfig.__post_init__`
unfoldable pub check_config : PolicyConfig → Result (Unit {0})
unfolding members_valid keys_valid have_keys no_keys ge_ℤ
check_config c = do
  raise_if (not (ge_ℤ c.decision_ttl_seconds (pos 1))) Kind.value_error
      (text "policy: decision TTL must be a positive integer")
  raise_if (is_empty_text c.version) Kind.value_error
      (text "policy: version must be a non-empty string")
  raise_if (not (members_valid c.allowed_repositories)) Kind.value_error
      (text "policy: allowed_repositories must be a non-empty set of strings")
  raise_if (not (members_valid c.allowed_actuators)) Kind.value_error
      (text "policy: allowed_actuators must be a non-empty set of strings")
  raise_if (not (members_valid c.allowed_approver_ids)) Kind.value_error
      (text "policy: allowed_approver_ids must be a non-empty set of strings")
  raise_if
      (no_keys c.trusted_approver_public_keys || not (keys_valid c.trusted_approver_public_keys))
      Kind.value_error (text "policy: trusted approver public keys are invalid")
  raise_if (not (have_keys c.allowed_approver_ids c.trusted_approver_public_keys)) Kind.value_error
      (text "policy: allowlisted approver has no trusted public key")

replace_from : Text → Text → ℕ → Text → Text
unfolding starts_with
replace_from old new skip [] = []
replace_from old new (suc skip) (c ∷ s) = replace_from old new skip s
replace_from old new zero (c ∷ s) = elim (starts_with old (c ∷ s)) [
  | true ↦ new ++ replace_from old new (length old - 1) s
  | false ↦ c ∷ replace_from old new zero s
]

-- `s.replace(old, new)` for a non-empty `old`
unfoldable pub replace_text : Text → Text → Text → Text
unfolding replace_from
replace_text old new s = replace_from old new 0 s

-- `effect, reasons`
pub record Verdict : Type 0 where
  pub effect : Text
  pub reasons : List Text

unfoldable pub deny : Text → Verdict
deny reason = record { effect = text "deny"; reasons = reason ∷ [] }

abbrev pub allow : Verdict
allow = record {
  effect = text "allow";
  reasons = text "repository-allowlisted" ∷ text "approval-valid" ∷ text "digest-bound" ∷ [];
}

names_list : List Text → Items
names_list [] = nil
names_list (t ∷ ts) = cons (str t) (names_list ts)

-- `policy: actuator request is malformed`
unfoldable pub names_request : Fields → Bool
names_request req =
    is_name (get req (text "operation"))
    && (is_name (get req (text "repository_id")) && is_name (get req (text "actuator_id")))

-- The approver's identity is on the allowlist.
unfoldable pub approver_listed : PolicyConfig → Value → Bool
approver_listed config approval =
    is_dict approval
    && (is_name (get (fields_of approval) (text "approver_id"))
        && in_names (get (fields_of approval) (text "approver_id")) config.allowed_approver_ids)

-- The request names another branch namespace or key than the intent.
unfoldable pub request_differs : Fields → Fields → Bool
request_differs req i =
    not (py_eq (get req (text "branch_namespace")) (get i (text "branch_namespace")))
    || not (py_eq (get req (text "idempotency_key")) (get i (text "idempotency_key")))

module _ (host : Host) where
  -- The `else` of the validation: the signature decides.
  unfoldable pub judge_signature : Fields → Option (List ℕ) → Result Verdict
  unfolding deny
  judge_signature approval none = err Kind.key_error (text_of (get approval (text "approver_id")))
  judge_signature approval (some key) =
      if verify_approval_signature host approval key
      then ok allow
      else ok (deny (text "approval-signature-invalid"))

  -- The `try` around `validate_approval`
  unfoldable pub judge_approval : PolicyConfig → Fields → Result (Unit {0}) → Result Verdict
  unfolding deny judge_signature key_of replace_text
  judge_approval config approval (ok _) =
      judge_signature approval
        (key_of (text_of (get approval (text "approver_id"))) config.trusted_approver_public_keys)
  judge_approval config approval (err Kind.contract_validation m) = ok (
      deny (
        replace_text (text " ") (text "-") (replace_text (text "approval: ") (text "approval-") m)))
  judge_approval config approval (err k m) = err k m

  -- The chain of `elif` branches from the intent on.
  unfoldable pub judge_intent :
      PolicyConfig → Fields → Value → Value → Fields → Object DateTime → Result Verdict
  unfolding deny request_differs approver_listed judge_approval
  judge_intent config req approval staged_change i now =
      if request_differs req i
      then ok (deny (text "request-intent-mismatch"))
      else if not (approver_listed config approval)
      then ok (deny (text "approver-not-allowlisted"))
      else judge_approval config (fields_of approval)
          (validate_approval host approval staged_change (dict i) config.version now)

  -- The chain of `elif` branches of `decide`; `digest` is that of the staged change.
  unfoldable pub judge :
      PolicyConfig → Fields → Value → Value → Value → Object DateTime → Text → Result Verdict
  unfolding deny judge_intent
  judge config req approval staged_change intent now digest =
      if not (py_eq (get req (text "operation")) (str (text "publish_pull_request")))
      then ok (deny (text "operation-not-registered"))
      else if not (in_names (get req (text "repository_id")) config.allowed_repositories)
      then ok (deny (text "repository-not-allowlisted"))
      else if not (in_names (get req (text "actuator_id")) config.allowed_actuators)
      then ok (deny (text "actuator-not-allowlisted"))
      else if not (py_eq (get req (text "staged_change_digest")) (str digest))
      then ok (deny (text "request-digest-mismatch"))
      else do
        i ← as_dict intent Kind.attribute_error (text "object has no attribute 'get'")
        judge_intent config req approval staged_change i now

  seconds_of : ℤ → ℕ
  seconds_of (pos n) = n
  seconds_of (negsuc n) = 0

  -- The dict that `decide` returns.
  unfoldable pub decision_of : PolicyConfig → Value → Fields → Text → ℕ → Verdict → Value
  unfolding names_list seconds_of
  decision_of config decision_id req digest moment verdict = dict (
      field (text "schema_version") (int (pos 1)) (
        field (text "decision_id") decision_id (
          field (text "effect") (str verdict.effect) (
            field (text "reason_codes") (list (names_list verdict.reasons)) (
              field (text "principal_id") (get req (text "actuator_id")) (
                field (text "operation") (get req (text "operation")) (
                  field (text "repository_id") (get req (text "repository_id")) (
                    field (text "staged_change_digest") (str digest) (
                      field (text "policy_version") (str config.version) (
                        field (text "evaluated_at") (str (host.isoformat moment)) (
                          field (text "expires_at")
                            (str (
                              host.isoformat
                                (moment + seconds_of config.decision_ttl_seconds * 1000000)))
                            end)))))))))))

  -- `DeterministicPolicy.decide`
  unfoldable pub decide :
      PolicyConfig → Bool → Value → Value → Value → Value → Value → Object DateTime → Result Value
  unfolding names_request judge decision_of
  decide config available decision_id actuator_request approval staged_change intent now = do
    raise_if (not available) Kind.policy_unavailable (text "policy service is unavailable")
    moment ← require_clock now
    req ←
        as_dict actuator_request Kind.contract_validation
          (text "policy: actuator request is malformed")
    raise_if (not (names_request req)) Kind.contract_validation
        (text "policy: actuator request is malformed")
    digest ← sha256_digest host.sha256_hex staged_change
    verdict ← judge config req approval staged_change intent now digest
    ok (decision_of config decision_id req digest moment verdict)
