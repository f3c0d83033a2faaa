-- ===== src/Tests/AuthorityRuns.antt =====
-- src/app_contracts/authority.py on concrete inputs.
use agent00x.Prelude.{ℕ, Text, text, true, false, none, some, [], ◌∷◌, ok, length, ◌≡◌, refl}
use agent00x.ApprovalSignature.{verify_approval_signature}
use agent00x.Authority.{validate_approval, bound_fields, require_clock}
use agent00x.Authority.Allow.{Listed, Signed, decide-allow}
use agent00x.Authority.Binding.{Agree, NamesDigests, Lasts, validate_approval-binds}
use agent00x.Authority.Policy.{PolicyConfig, decide, request_differs, approver_listed}
use agent00x.Clock.{DateTime}
use agent00x.Digests.{sha256_digest}
use agent00x.Host.{Host}
use agent00x.Values.{
  Value, int, str, list, dict, pos, Fields, end, field, get, nil, cons, fields_of, as_dict, has,
  is_name, py_eq, text_of, is_str, in_names, is_dict,
}
use agent00x.Workflow.{Object, instance_of}

-- A host whose times are the lengths of their texts, and whose digests are all the same.
abbrev host : Host
host = record {
  sha256_hex = λ _. text "00";
  from_isoformat = λ s. some (record { instant = length s; aware = true });
  isoformat = λ _. text "later";
  ed25519_verifies = λ _ _ _. true;
  urlparse = λ _. none;
}

abbrev now : Object DateTime
now = instance_of (record { instant = 5; aware = true })

abbrev staged_change : Value
staged_change = dict (field (text "path") (str (text "README")) end)

abbrev intent_fields : Fields
intent_fields = field (text "process_id") (str (text "p")) (
    field (text "repository_id") (str (text "owner/name")) (
      field (text "operation") (str (text "publish_pull_request")) (
        field (text "approval_id") (str (text "a")) (
          field (text "staged_change_digest") (str (text "sha256:00")) (
            field (text "branch_namespace") (str (text "agent/fix")) (
              field (text "idempotency_key") (str (text "k"))
                (field (text "expires_at") (str (text "ten chars.")) end)))))))

abbrev approval_fields : Fields
approval_fields = field (text "schema_version") (int (pos 1)) (
    field (text "approval_id") (str (text "a")) (
      field (text "approver_id") (str (text "op")) (
        field (text "process_id") (str (text "p")) (
          field (text "operation") (str (text "publish_pull_request")) (
            field (text "repository_id") (str (text "owner/name")) (
              field (text "staged_change_digest") (str (text "sha256:00")) (
                field (text "approved_intent_digest") (str (text "sha256:00")) (
                  field (text "policy_version") (str (text "v1")) (
                    field (text "approved_at") (str (text "one")) (
                      field (text "expires_at") (str (text "ten chars.")) (
                        field (text "signature")
                          (str (
                            text
                              "0a0a0a0a0a0a0a0a0a0a0a0a0a0a0a0a0a0a0a0a0a0a0a0a0a0a0a0a0a0a0a0a0a0a0a0a0a0a0a0a0a0a0a0a0a0a0a0a0a0a0a0a0a0a0a0a0a0a0a0a0a0a0a0a"))
                          end)))))))))))

validated :
    validate_approval host (dict approval_fields) staged_change (dict intent_fields) (text "v1") now
    ≡ ok tt
unfolding validate_approval text as_dict get sha256_digest has is_name py_eq text_of is_str
validated = refl

validate_approval-binds_example :
    (a i s : Fields) × (moment : ℕ) × (staged : Text) × (dict approval_fields ≡ dict a)
    × (dict intent_fields ≡ dict i)
    × (staged_change ≡ dict s)
    × (require_clock now ≡ ok moment)
    × (sha256_digest host.sha256_hex (dict s) ≡ ok staged)
    × Agree a i bound_fields
    × NamesDigests host a i staged
    × (get a (text "policy_version") ≡ str (text "v1"))
    × Lasts host a i moment
validate_approval-binds_example =
    validate_approval-binds host (dict approval_fields) staged_change (dict intent_fields)
      (text "v1") now validated

abbrev thirty_two : Text
thirty_two = text "kkkkkkkkkkkkkkkkkkkkkkkkkkkkkkkk"

abbrev config : PolicyConfig
config = record {
  version = text "v1";
  allowed_repositories = text "owner/name" ∷ [];
  allowed_actuators = text "github" ∷ [];
  allowed_approver_ids = text "op" ∷ [];
  trusted_approver_public_keys = (text "op", thirty_two) ∷ [];
  decision_ttl_seconds = pos 300;
}

abbrev request : Value
request = dict (
    field (text "operation") (str (text "publish_pull_request")) (
      field (text "repository_id") (str (text "owner/name")) (
        field (text "actuator_id") (str (text "github")) (
          field (text "staged_change_digest") (str (text "sha256:00")) (
            field (text "branch_namespace") (str (text "agent/fix"))
              (field (text "idempotency_key") (str (text "k")) end))))))

abbrev decision : Value
decision = dict (
    field (text "schema_version") (int (pos 1)) (
      field (text "decision_id") (str (text "d")) (
        field (text "effect") (str (text "allow")) (
          field (text "reason_codes")
            (list (
              cons (str (text "repository-allowlisted"))
                (cons (str (text "approval-valid")) (cons (str (text "digest-bound")) nil))))
            (field (text "principal_id") (str (text "github")) (
              field (text "operation") (str (text "publish_pull_request")) (
                field (text "repository_id") (str (text "owner/name")) (
                  field (text "staged_change_digest") (str (text "sha256:00")) (
                    field (text "policy_version") (str (text "v1")) (
                      field (text "evaluated_at") (str (text "later"))
                        (field (text "expires_at") (str (text "later")) end)))))))))))

decided :
    decide host config true
      (str (text "d"))
      request
      (dict approval_fields)
      staged_change
      (dict intent_fields)
      now
    ≡ ok decision
unfolding decide text require_clock as_dict is_name get sha256_digest py_eq in_names is_dict
    fields_of validate_approval has text_of is_str verify_approval_signature
decided = refl

allows : get (fields_of decision) (text "effect") ≡ str (text "allow")
unfolding get text fields_of
allows = refl

decide-allow_example :
    (req i : Fields) × (digest : Text) × (true ≡ true)
    × (request ≡ dict req)
    × (dict intent_fields ≡ dict i)
    × (sha256_digest host.sha256_hex staged_change ≡ ok digest)
    × Listed host config req digest
    × (request_differs req i ≡ false)
    × (approver_listed config (dict approval_fields) ≡ true)
    × (validate_approval host (dict approval_fields) staged_change (dict i) (text "v1") now ≡ ok tt)
    × Signed host config (fields_of (dict approval_fields))
decide-allow_example =
    decide-allow host config true (str (text "d")) request (dict approval_fields) staged_change
      (dict intent_fields) now decision decided allows
