-- ===== src/Gateway/Safety.antt =====
-- What a decision of the gateway guarantees.
use agent00x.Prelude.{
  err, Text, Kind, Outcome, ok, Result, refl, inr, inl, text, text_eq, Bool, true, false, ◌≡◌, ◌↔◌,
  ◌⊎◌, arith,
}
use agent00x.Gateway.{
  event_of, denied, GatewayDecision, after_audit, enforce, caught, classified, GatewayEvent, fast,
  Request, decide, read_only, slow_port, privileged, sensitive,
}
use agent00x.Values.{Value, as_dict, null, bool, int, str, list, tuple, dict, object}

-- The gateway allows a request exactly when it is read-only, or the policy is available and the
-- request carries no tainted content.
pub decide-allowed_iff :
    (r : Request) (policy_available : Bool)
    → ((decide r policy_available).allowed ≡ true)
      ↔ ((read_only r.operation ≡ true) ⊎ ((policy_available ≡ true) × (r.tainted ≡ false)))
unfolding decide
decide-allowed_iff r p = ground arith

-- The fast path is taken exactly by untainted internal requests for a read-only operation on an
-- ordinary port with data that is not sensitive, while the policy is available.
pub decide-fast_iff :
    (r : Request) (policy_available : Bool)
    → ((decide r policy_available).path ≡ fast) ↔ (
        (policy_available ≡ true)
        × (r.tainted ≡ false)
        × (text_eq r.protocol (text "internal") ≡ true)
        × (slow_port r.port ≡ false)
        × (privileged r.operation ≡ false)
        × (read_only r.operation ≡ true)
        × (sensitive r.sensitivity ≡ false))
unfolding decide
decide-fast_iff r p = ground arith

classified-caught :
    (envelope policy : Value) (k : Kind) (m : Text)
    → classified envelope policy ≡ err k m
    → caught k ≡ true
unfolding classified caught as_dict
classified-caught (dict e) policy k m h = ground arith
classified-caught null policy k m h = ground arith
classified-caught (bool b) policy k m h = ground arith
classified-caught (int n) policy k m h = ground arith
classified-caught (str s) policy k m h = ground arith
classified-caught (list xs) policy k m h = ground arith
classified-caught (tuple xs) policy k m h = ground arith
classified-caught (object n) policy k m h = ground arith

Result-cases :
    {A : Type 0} (r : Result A) → ((a : A) × (r ≡ ok a)) ⊎ ((k : Kind) × (m : Text) × (r ≡ err k m))
Result-cases (ok a) = inl (a, refl)
Result-cases (err k m) = inr (k, m, refl)

module _ {S : Type 0} (sink : GatewayEvent → S → Outcome S (Unit {0})) where
  after_audit-ok :
      (d : GatewayDecision) (o : Outcome S (Unit {0}))
      → (d' : GatewayDecision) × ((after_audit sink d o).0 ≡ ok d')
  unfolding after_audit
  after_audit-ok d (ok _, s) = (d, refl)
  after_audit-ok d (err _ _, s) = (_, refl)

  -- `enforce` raises for no envelope, policy flag and audit sink: it always returns a decision.
  pub enforce_total :
      (envelope policy : Value) (s : S)
      → (d : GatewayDecision) × ((enforce sink envelope policy s).0 ≡ ok d)
  unfolding enforce
  enforce_total envelope policy s = elim (Result-cases (classified envelope policy)) [
    | inl ((e, d), h) ↦ let (d', done) = after_audit-ok d (sink (event_of e d) s) in (d', rw h done)
    | inr (k, m, h) ↦
        (denied (text "malformed-envelope"), rw (h, classified-caught envelope policy k m h))
  ]
