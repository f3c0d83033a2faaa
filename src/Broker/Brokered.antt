-- ===== src/Broker/Brokered.antt =====
-- src/app_contracts/github_actuator.py: publishing through a channel that the broker opens.
use agent00x.Prelude.{text, ◌||◌, not, Kind, Result, ok, err, ◌>>=◌, ◌>>◌, Outcome}
use agent00x.Authority.{check_decision_usable, check_intent_approved}
use agent00x.Broker.{Broker, ChannelFactory, open_github_publication_channel}
use agent00x.Clock.{DateTime}
use agent00x.Gateway.{GatewayDecision}
use agent00x.Host.{Host}
use agent00x.Publication.Actuator.{actuator_error, is_null, is_slow, publish_authorized_request}
use agent00x.Publication.Execution.{Endpoint}
use agent00x.Publication.Receipts.{Receipt}
use agent00x.Values.{Value, as_dict}
use agent00x.Workflow.{Object, as_instance}

module _ (host : Host) where
  -- The gates before the broker is asked for a channel.
  unfoldable pub gates :
      Value → Object GatewayDecision → Value → Object DateTime → Value → Result (Unit {0})
  unfolding actuator_error is_null is_slow as_instance
  gates policy_decision gateway_decision intent now approval = do
    actuator_error (is_null approval) (text "approval is required")
    check_decision_usable host policy_decision now
    a ← as_dict approval Kind.attribute_error (text "object has no attribute 'get'")
    check_intent_approved host intent a
    g ←
        as_instance gateway_decision Kind.contract_validation
          (text "actuator: gateway decision is malformed")
    actuator_error (not g.allowed || not (is_slow g.path))
        (text "gateway has not authorized slow path")

  -- The call of the actuator on the channel that was opened.
  unfoldable pub publish_on :
      {E : Type 0}
      → Value
      → Value
      → Value
      → Object GatewayDecision
      → Value
      → Object DateTime
      → Value
      → Outcome (Broker × E) (Endpoint E)
      → Outcome (Broker × E) Receipt
  unfolding publish_authorized_request
  publish_on actuator_request policy_decision approval_valid gateway_decision intent now approval
        (err k m, s) =
      (err k m, s)
  publish_on actuator_request policy_decision approval_valid gateway_decision intent now approval
        (ok channel, (b, e)) =
      let (result, e') =
        publish_authorized_request host channel actuator_request policy_decision approval_valid
          gateway_decision intent now approval e in
      (result, (b, e'))

  -- `BrokeredGitHubActuator.publish_pull_request`, with the state of its broker
  unfoldable pub publish_brokered :
      {E : Type 0}
      → ChannelFactory E
      → Value
      → Value
      → Value
      → Value
      → Object GatewayDecision
      → Value
      → Object DateTime
      → Value
      → Broker × E
      → Outcome (Broker × E) Receipt
  unfolding gates open_github_publication_channel publish_on
  publish_brokered factory actuator_request credential_grant policy_decision approval_valid
        gateway_decision intent now approval s =
      elim (gates policy_decision gateway_decision intent now approval) [
        | err k m ↦ (err k m, s)
        | ok _ ↦
            publish_on actuator_request policy_decision approval_valid gateway_decision intent now
              approval
              (open_github_publication_channel host factory credential_grant actuator_request now s)
      ]
