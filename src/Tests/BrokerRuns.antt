-- ===== src/Tests/BrokerRuns.antt =====
-- src/app_contracts/broker.py and github_actuator.py on concrete inputs.
use agent00x.Prelude.{
  ℕ, ◌≤◌, text, member_text, true, some, [], ◌∷◌, Kind, ok, err, length, ◌≡◌, refl, inr, ap,
}
use agent00x.Authority.{check_decision_usable, check_intent_approved}
use agent00x.Broker.{ChannelFactory, new_broker, Broker}
use agent00x.Broker.Brokered.{publish_brokered}
use agent00x.Broker.Gates.{IsAdmitted}
use agent00x.Broker.SingleUse.{
  start, call, IsSingleUse, Reach-IsSingleUse, publish_brokered-IsAdmitted,
}
use agent00x.Digests.{sha256_digest}
use agent00x.Publication.Keys.{refused_in_base, refused_part}
use agent00x.Publication.Receipts.{other_object}
use agent00x.Tests.ActuatorRuns.{host, now, endpoint, intent, request, decision, approval, gated}
use agent00x.Values.{
  Value, bool, str, dict, Fields, end, field, get, has, py_eq, is_name, is_str, text_of, as_dict,
  item, is_true,
}
use agent00x.Workflow.{as_instance}

abbrev factory : ChannelFactory ℕ
factory n = (ok (some endpoint), n)

abbrev grant : Value
grant = dict (
    field (text "credential_grant_id") (str (text "grant-1")) (
      field (text "credential_class") (str (text "github-app-installation")) (
        field (text "actuator_id") (str (text "github")) (
          field (text "repository_id") (str (text "owner/name")) (
            field (text "operation") (str (text "publish_pull_request")) (
              field (text "request_digest") (str (text "sha256:00")) (
                field (text "single_use") (bool true)
                  (field (text "expires_at") (str (text "ten chars.")) end))))))))

abbrev spent : Broker
spent = record { opened_grants = text "grant-1" ∷ []; used_grants = text "grant-1" ∷ [] }

published :
    publish_brokered host factory request grant decision
      (bool true)
      gated
      intent
      now
      approval
      (new_broker, 0)
    ≡ (ok other_object, (spent, 1))
unfolding publish_brokered new_broker text is_true is_str as_dict is_name get has py_eq as_instance
    check_decision_usable check_intent_approved sha256_digest item refused_in_base refused_part
    text_of
published = refl

refused_again :
    publish_brokered host factory request grant decision
      (bool true)
      gated
      intent
      now
      approval
      (spent, 1)
    ≡ (err Kind.contract_validation (text "broker: credential grant already used"), (spent, 1))
unfolding publish_brokered new_broker text is_true is_str as_dict is_name get has py_eq as_instance
    check_decision_usable check_intent_approved sha256_digest item refused_in_base refused_part
    text_of member_text
refused_again = refl

Reach-IsSingleUse_example : IsSingleUse spent × (1 ≤ length spent.opened_grants)
Reach-IsSingleUse_example = Reach-IsSingleUse host factory (
    call
      (call (start refl) request grant decision (bool true) gated intent now approval published
        refl)
      request grant decision (bool true) gated intent now approval refused_again refl)

publish_brokered-IsAdmitted_example :
    (g : Fields) × IsAdmitted host factory request grant decision
      (bool true)
      gated
      intent
      now
      approval
      new_broker
      0
      g
publish_brokered-IsAdmitted_example =
    publish_brokered-IsAdmitted host factory request grant decision (bool true) gated intent now
      approval new_broker 0 (inr (other_object, ap (λ o. o.0) published))
