-- ===== src/Publication/Authorized.antt =====
-- What stands behind every effect of the actuator.
use agent00x.Prelude.{
  ok_injective, ap, sym, ◌∙◌, inl, inr, ◌⊎◌, Text, text, true, List, [], ◌∷◌, Kind, ok, err, ◌≡◌,
  ◌≢◌, Outcome,
}
use agent00x.Authority.{check_decision_usable, check_intent_approved}
use agent00x.Clock.{DateTime}
use agent00x.Gateway.{GatewayDecision}
use agent00x.Host.{Host}
use agent00x.Publication.Actuator.{
  check_request, check_key, is_slow, decision_fields, intent_fields,
}
use agent00x.Publication.Receipts.{Receipt}
use agent00x.Values.{Value, str, dict, Fields, get, py_eq}
use agent00x.Workflow.{Object, as_instance, instance_of, foreign}

-- Every listed field of the record equals the request's, as Python compares them.
abbrev pub Match : Fields → Fields → List Text → Type 0
Match d r [] = Unit
Match d r (k ∷ ks) = (py_eq (get d k) (get r k) ≡ true) × Match d r ks

pub as_instance-ok :
    {A : Type 0} (o : Object A) (k : Kind) (m : Text) (a : A)
    → as_instance o k m ≡ ok a
    → o ≡ instance_of a
unfolding as_instance
as_instance-ok (instance_of b) k m a h = ap instance_of (ok_injective b a h)
as_instance-ok foreign k m a h = cc

-- A call that raised and left its state neither changed it nor returned.
pub refused_without_effect :
    {E : Type 0} {P : Type 0} {o : Outcome E Receipt} {e : E} (k : Kind) (m : Text)
    → o ≡ (err k m, e)
    → (o.1 ≢ e) ⊎ ((receipt : Receipt) × (o.0 ≡ ok receipt))
    → P
refused_without_effect {E} {P} k m h (inl changed) =
    elim (changed (ap (λ (x : Outcome E Receipt). x.1) h)) [ ]
refused_without_effect {E} {P} k m h (inr (receipt, returned)) =
    raised (sym (ap (λ (x : Outcome E Receipt). x.0) h) ∙ returned)
  where
    raised : err k m ≡ ok receipt → P
    raised e = cc

module _ (host : Host) where
  -- What `authorize` has established when it returns.
  abbrev pub IsAuthorized :
      Value → Value → Value → Object GatewayDecision → Value → Object DateTime → Value → Type 0
  IsAuthorized request decision approval_valid gateway_decision intent now approval =
      (r d i a : Fields) × (g : GatewayDecision) × (check_request request approval approval_valid
        ≡ ok r)
      × (check_decision_usable host decision now ≡ ok tt)
      × (check_intent_approved host intent a ≡ ok tt)
      × (approval ≡ dict a)
      × (gateway_decision ≡ instance_of g)
      × (g.allowed ≡ true)
      × (is_slow g.path ≡ true)
      × (decision ≡ dict d)
      × (intent ≡ dict i)
      × (py_eq (get d (text "effect")) (str (text "allow")) ≡ true)
      × Match d r decision_fields
      × Match i r intent_fields
      × (check_key r ≡ ok tt)
