-- ===== src/Tests/ChainRuns.antt =====
-- src/app_contracts/chain.py on concrete chains.
use agent00x.Prelude.{Text, text, false, ok, ◌≡◌, refl}
use agent00x.Chain.Attenuation.{Attenuates, validate_delegation-Attenuates}
use agent00x.Chain.Delegation.{validate_delegation}
use agent00x.Chain.Members.{must_equal}
use agent00x.Values.{
  Value, bool, int, str, list, dict, pos, Fields, end, field, get, py_eq, is_name, nil, cons, ge_ℤ,
  tuple,
}

abbrev pair : Text → Text → Fields → Fields
pair k v rest = field k (str v) rest

abbrev digest : Text
digest = text "sha256:00"

abbrev key : Text
key = text "publish/fix/main/sha256:00"

abbrev grant : Fields
grant = pair (text "subject") (text "worker") (
    pair (text "status") (text "active") (
      pair (text "process_id") (text "p") (
        pair (text "grant_id") (text "g") (
          field (text "delegable_actions")
            (list (cons (str (text "read")) (cons (str (text "edit")) nil)))
            (field (text "resources") (list (cons (str (text "repo")) nil))
              (field (text "max_delegation_depth") (int (pos 2)) end))))))

abbrev receipt : Fields
receipt = pair (text "parent_grant_id") (text "g") (
    pair (text "issuer") (text "worker") (
      pair (text "process_id") (text "p") (
        field (text "actions") (list (cons (str (text "edit")) nil)) (
          field (text "resources") (tuple (cons (str (text "repo")) nil))
            (field (text "remaining_delegation_depth") (int (pos 1)) end)))))

abbrev common : Fields → Fields
common rest = pair (text "process_id") (text "p") (
    pair (text "repository_id") (text "r") (
      pair (text "staged_change_digest") digest (
        pair (text "approval_id") (text "a")
          (pair (text "base_branch") (text "main") (pair (text "idempotency_key") key rest)))))

abbrev intended : Fields → Fields
intended rest = common (
    pair (text "base_commit") (text "c") (
      pair (text "branch_namespace") (text "agent/fix") (
        pair (text "title_artifact_ref") (text "t")
          (pair (text "body_artifact_ref") (text "b") rest))))

abbrev chain : Value
chain = dict (
    field (text "process_contract") (dict (common end)) (
      field (text "identity")
        (dict
          (pair (text "identity_id") (text "worker") (pair (text "status") (text "active") end)))
        (field (text "capability_grant") (dict grant) (
          field (text "delegation_receipt") (dict receipt) (
            field (text "trust_profile") (dict (pair (text "principal_id") (text "worker") end)) (
              field (text "canonical_envelope")
                (dict (
                  pair (text "correlation_id") (text "p")
                    (field (text "security") (dict (field (text "tainted") (bool false) end)) end)))
                (field (text "task_contract")
                  (dict
                    (pair (text "process_id") (text "p") (pair (text "task_id") (text "k") end)))
                  (field (text "evidence_bundle")
                    (dict (
                      pair (text "task_id") (text "k") (pair (text "patch_digest") (text "d") end)))
                    (field (text "verification_report")
                      (dict (
                        pair (text "evidence_digest") digest
                          (pair (text "verdict") (text "pass") end)))
                      (field (text "staged_change")
                        (dict (
                          common (
                            pair (text "patch_digest") (text "d") (
                              pair (text "evidence_digest") digest (
                                pair (text "verification_digest") digest
                                  (pair (text "patch_artifact_ref") (text "f") end))))))
                        (field (text "approval") (dict (common end)) (
                          field (text "intent") (dict (intended end)) (
                            field (text "policy_decision")
                              (dict (
                                common (
                                  pair (text "decision_id") (text "e")
                                    (pair (text "effect") (text "allow") end))))
                              (field (text "actuator_request")
                                (dict (
                                  intended (
                                    pair (text "policy_decision_id") (text "e") (
                                      pair (text "patch_artifact_ref") (text "f")
                                        (pair (text "actuator_id") (text "github") end)))))
                                (field (text "credential_use_grant")
                                  (dict (
                                    pair (text "actuator_id") (text "github") (
                                      pair (text "repository_id") (text "r")
                                        (pair (text "request_digest") digest end))))
                                  (field (text "action_receipt")
                                    (dict
                                      (common (pair (text "policy_decision_id") (text "e") end)))
                                    end))))))))))))))))

delegated : validate_delegation grant receipt ≡ ok tt
unfolding validate_delegation must_equal text is_name get py_eq ge_ℤ
delegated = refl

validate_delegation-Attenuates_example : Attenuates grant receipt
validate_delegation-Attenuates_example = validate_delegation-Attenuates grant receipt delegated
