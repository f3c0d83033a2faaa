-- ===== src/Broker/Gates.antt =====
-- A call that reaches the provider has passed every gate, and its grant is new.
use agent00x.Prelude.{
  Text, text, member_text, Bool, true, false, ◌||◌, not, Option, none, some, Kind, Result, ok, err,
  ◌≡◌, refl, arith, bind_returns, Outcome, Result-cases, Bool-cases, inl, inr, ◌⊎◌, ap, ◌∙◌,
}
use agent00x.Authority.{check_decision_usable, check_intent_approved}
use agent00x.Broker.{
  Broker, ChannelFactory, spend, validate_credential_use_grant, opened,
  open_github_publication_channel,
}
use agent00x.Broker.Binding.{IsScoped, validate-IsScoped}
use agent00x.Broker.Brokered.{gates, publish_on, publish_brokered}
use agent00x.Clock.{DateTime}
use agent00x.Gateway.{GatewayDecision}
use agent00x.Host.{Host}
use agent00x.Publication.Actuator.{actuator_error, is_null, is_slow}
use agent00x.Publication.Authorized.{as_instance-ok}
use agent00x.Publication.Execution.{Endpoint}
use agent00x.Publication.Receipts.{Receipt}
use agent00x.Values.{Value, dict, Fields, get, text_of, as_dict}
use agent00x.Values.Dicts.{as_dict-ok}
use agent00x.Workflow.{Object, as_instance, instance_of}

abbrev pub id_of : Fields → Text
id_of g = text_of (get g (text "credential_grant_id"))

module _ (host : Host) where
  -- The decision is a usable allow, the approval names this intent, the gateway allowed the slow
  -- path.
  abbrev pub IsGated : Value → Object GatewayDecision → Value → Object DateTime → Value → Type 0
  IsGated decision gateway_decision intent now approval =
      (a : Fields) × (v : GatewayDecision) × (approval ≡ dict a)
      × (check_decision_usable host decision now ≡ ok tt)
      × (check_intent_approved host intent a ≡ ok tt)
      × (gateway_decision ≡ instance_of v)
      × (v.allowed ≡ true)
      × (is_slow v.path ≡ true)

  both_false : {a b : Bool} → (not a || not b) ≡ false → (a ≡ true) × (b ≡ true)
  both_false {a} {b} h = ground arith

  error-passes : (t : Bool) (m : Text) → actuator_error t m ≡ ok tt → t ≡ false
  unfolding actuator_error
  error-passes true m h = cc
  error-passes false m h = refl

  gates-IsGated :
      (decision : Value) (gateway_decision : Object GatewayDecision) (intent : Value)
      (now : Object DateTime) (approval : Value)
      → gates host decision gateway_decision intent now approval ≡ ok tt
      → IsGated decision gateway_decision intent now approval
  unfolding gates
  gates-IsGated decision gateway_decision intent now approval h =
      let (_, _, h1) = bind_returns (actuator_error (is_null approval) _) _ h in
      let (_, usable, h2) = bind_returns (check_decision_usable host decision now) _ h1 in
      let (a, ea, h3) = bind_returns (as_dict approval _ _) _ h2 in
      let (_, approved, h4) = bind_returns (check_intent_approved host intent a) _ h3 in
      let (v, ev, h5) = bind_returns (as_instance gateway_decision _ _) _ h4 in
      let (is_open, slow_path) =
        both_false (error-passes (not v.allowed || not (is_slow v.path)) _ h5) in
      (
        a,
        v,
        as_dict-ok approval _ _ a ea,
        usable,
        approved,
        as_instance-ok gateway_decision _ _ v ev,
        is_open,
        slow_path,
      )

  module _ {E : Type 0} (factory : ChannelFactory E) where
    -- What became of the broker's state and the rest when the factory was called.
    abbrev Left : Text → Broker → Broker → Type 0
    Left grant_id b b' = (b' ≡ b) ⊎ (b' ≡ spend grant_id b)

    opened-Left :
        (grant_id : Text) (b : Broker) (o : Outcome E (Option (Endpoint E)))
        → ((k : Kind) × (m : Text) × (e' : E) × (opened grant_id b o ≡ (err k m, (b, e'))))
          ⊎ ((channel : Endpoint E) × (e' : E) × (opened grant_id b o
                ≡ (ok channel, (spend grant_id b, e'))))
    unfolding opened
    opened-Left grant_id b (err k m, e) = inl (k, m, e, refl)
    opened-Left grant_id b (ok none, e) = inl (_, _, e, refl)
    opened-Left grant_id b (ok (some channel), e) = inr (channel, e, refl)

    module _ (request grant decision approval_valid : Value)
        (gateway_decision : Object GatewayDecision) (intent : Value) (now : Object DateTime)
        (approval : Value) (b : Broker) (e : E) where
      abbrev call : Outcome (Broker × E) Receipt
      call =
          publish_brokered host factory request grant decision approval_valid gateway_decision
            intent now approval (b, e)

      -- The gates were passed, and the grant is for this request and was not used.
      abbrev pub IsAdmitted : Fields → Type 0
      IsAdmitted g =
          IsGated decision gateway_decision intent now approval
          × IsScoped host grant request now g
          × (member_text (id_of g) b.used_grants ≡ false)

      abbrev open_call : Outcome (Broker × E) (Endpoint E)
      open_call = open_github_publication_channel host factory grant request now (b, e)

      abbrev rest_of_call : Outcome (Broker × E) (Endpoint E) → Outcome (Broker × E) Receipt
      rest_of_call =
          publish_on host request decision approval_valid gateway_decision intent now approval

      call-gated :
          (r : Result (Unit {0}))
          → gates host decision gateway_decision intent now approval ≡ r
          → call ≡ elim r as (λ _. Outcome (Broker × E) Receipt) [
            | ok _ ↦ rest_of_call open_call
            | err k m ↦ (err k m, (b, e))
          ]
      unfolding publish_brokered
      call-gated (ok u) h = rw (h, publish_brokered) refl
      call-gated (err k m) h = rw (h, publish_brokered) refl

      open-refused :
          (k : Kind) (m : Text)
          → validate_credential_use_grant host grant request now ≡ err k m
          → open_call ≡ (err k m, (b, e))
      unfolding open_github_publication_channel
      open-refused k m h = rw (h, open_github_publication_channel) refl

      open-used :
          (g : Fields)
          → validate_credential_use_grant host grant request now ≡ ok g
          → member_text (id_of g) b.used_grants ≡ true
          → (m : Text) × (open_call ≡ (err Kind.contract_validation m, (b, e)))
      unfolding open_github_publication_channel
      open-used g h used = (
        text "broker: credential grant already used",
        rw (h, open_github_publication_channel) (rw used refl),
      )

      open-new :
          (g : Fields)
          → validate_credential_use_grant host grant request now ≡ ok g
          → member_text (id_of g) b.used_grants ≡ false
          → open_call ≡ opened (id_of g) b (factory e)
      unfolding open_github_publication_channel
      open-new g h new = rw (h, open_github_publication_channel) (rw new refl)

      -- The broker refuses, or the factory fails, or the grant is spent on a channel.
      abbrev OpenCases : Type 0
      OpenCases =
          ((k : Kind) × (m : Text) × (open_call ≡ (err k m, (b, e))))
          ⊎ ((g : Fields) × IsScoped host grant request now g
              × (member_text (id_of g) b.used_grants ≡ false)
              × (((k : Kind) × (m : Text) × (e' : E) × (open_call ≡ (err k m, (b, e'))))
                  ⊎ ((channel : Endpoint E) × (e' : E) × (open_call
                        ≡ (ok channel, (spend (id_of g) b, e'))))))

      open-scoped :
          (g : Fields) → validate_credential_use_grant host grant request now ≡ ok g → OpenCases
      open-scoped g h = elim (Bool-cases (member_text (id_of g) b.used_grants)) [
        | inl used ↦ let (m, at) = open-used g h used in inl (Kind.contract_validation, m, at)
        | inr new ↦ inr (
          g,
          validate-IsScoped host grant request now g h,
          new,
          elim (opened-Left (id_of g) b (factory e)) [
            | inl failed ↦ let (k, m, e', at) = failed in inl (k, m, e', open-new g h new ∙ at)
            | inr done ↦ let (channel, e', at) = done in inr (channel, e', open-new g h new ∙ at)
          ],
        )
      ]

      open-cases : OpenCases
      open-cases = elim (Result-cases (validate_credential_use_grant host grant request now)) [
        | inl valid ↦ open-scoped valid.0 valid.1
        | inr raised ↦ let (k, m, h) = raised in inl (k, m, open-refused k m h)
      ]

      rest_of_call-refused :
          (o : Outcome (Broker × E) (Endpoint E)) (k : Kind) (m : Text) (s : Broker × E)
          → o ≡ (err k m, s)
          → rest_of_call o ≡ (err k m, s)
      unfolding publish_on
      rest_of_call-refused o k m s h = rw h refl

      rest_of_call-broker :
          (o : Outcome (Broker × E) (Endpoint E)) (channel : Endpoint E) (b' : Broker) (e' : E)
          → o ≡ (ok channel, (b', e'))
          → (rest_of_call o).1.0 ≡ b'
      unfolding publish_on
      rest_of_call-broker o channel b' e' h = rw h refl

      -- A call is refused before the factory is asked, or fails there, or spends the grant.
      pub publish_brokered-cases :
          ((k : Kind) × (m : Text) × (call ≡ (err k m, (b, e))))
          ⊎ ((g : Fields) × IsAdmitted g
              × (((k : Kind) × (m : Text) × (e' : E) × (call ≡ (err k m, (b, e'))))
                  ⊎ (call.1.0 ≡ spend (id_of g) b)))
      publish_brokered-cases =
          elim (Result-cases (gates host decision gateway_decision intent now approval)) [
            | inr raised ↦ let (k, m, h) = raised in inl (k, m, call-gated (err k m) h)
            | inl passed ↦
                let through = call-gated (ok passed.0) passed.1 in
                let gated = gates-IsGated decision gateway_decision intent now approval passed.1 in
                elim open-cases [
                  | inl refused ↦
                      let (k, m, h) = refused in
                      inl (k, m, through ∙ rest_of_call-refused open_call k m (b, e) h)
                  | inr scoped ↦
                      let (g, bound, new, left) = scoped in
                      inr (g, (gated, bound, new), after g through left)
                ]
          ]
        where
          after :
              (g : Fields)
              → call ≡ rest_of_call open_call
              → ((k : Kind) × (m : Text) × (e' : E) × (open_call ≡ (err k m, (b, e'))))
                ⊎ ((channel : Endpoint E) × (e' : E) × (open_call
                      ≡ (ok channel, (spend (id_of g) b, e'))))
              → ((k : Kind) × (m : Text) × (e' : E) × (call ≡ (err k m, (b, e'))))
                ⊎ (call.1.0 ≡ spend (id_of g) b)
          after g through (inl (k, m, e', h)) =
              inl (k, m, e', through ∙ rest_of_call-refused open_call k m (b, e') h)
          after g through (inr (channel, e', h)) = inr (
              ap (λ (o : Outcome (Broker × E) Receipt). o.1.0) through
              ∙ rest_of_call-broker open_call channel _ e' h)
