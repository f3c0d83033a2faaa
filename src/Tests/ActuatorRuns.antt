-- ===== src/Tests/ActuatorRuns.antt =====
-- src/app_contracts/actuator.py on concrete inputs.
use agent00x.Prelude.{ℕ, suc, text, true, none, some, [], ok, length}
use agent00x.Clock.{DateTime}
use agent00x.Gateway.{GatewayDecision, slow}
use agent00x.Host.{Host}
use agent00x.Publication.Execution.{Endpoint}
use agent00x.Publication.Receipts.{other_object}
use agent00x.Values.{Value, str, dict, end, field}
use agent00x.Workflow.{Object, instance_of}

abbrev pub host : Host
host = record {
  sha256_hex = λ _. text "00";
  from_isoformat = λ s. some (record { instant = length s; aware = true });
  isoformat = λ _. text "later";
  ed25519_verifies = λ _ _ _. true;
  urlparse = λ _. none;
}

abbrev pub now : Object DateTime
now = instance_of (record { instant = 5; aware = true })

abbrev pub endpoint : Endpoint ℕ
endpoint = record {
  publish_pull_request = λ _ n. (ok other_object, suc n);
  find_by_idempotency_key = λ _ _ _ n. (ok none, n);
}

abbrev pub intent : Value
intent = dict (
    field (text "branch_namespace") (str (text "agent/fix")) (
      field (text "base_branch") (str (text "main"))
        (field (text "idempotency_key") (str (text "publish/fix/main/sha256:00")) end)))

abbrev pub request : Value
request = dict (
    field (text "actuator_id") (str (text "github")) (
      field (text "operation") (str (text "publish_pull_request")) (
        field (text "repository_id") (str (text "owner/name")) (
          field (text "branch_namespace") (str (text "agent/fix")) (
            field (text "base_branch") (str (text "main")) (
              field (text "staged_change_digest") (str (text "sha256:00"))
                (field (text "idempotency_key") (str (text "publish/fix/main/sha256:00")) end)))))))

abbrev pub decision : Value
decision = dict (
    field (text "effect") (str (text "allow")) (
      field (text "operation") (str (text "publish_pull_request")) (
        field (text "repository_id") (str (text "owner/name")) (
          field (text "staged_change_digest") (str (text "sha256:00"))
            (field (text "expires_at") (str (text "ten chars.")) end)))))

abbrev pub approval : Value
approval = dict (field (text "approved_intent_digest") (str (text "sha256:00")) end)

abbrev pub gated : Object GatewayDecision
gated = instance_of (record { path = slow; allowed = true; reason_codes = [] })
