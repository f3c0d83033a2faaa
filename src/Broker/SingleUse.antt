-- ===== src/Broker/SingleUse.antt =====
-- Grants are single-use, over every sequence of calls of one actuator with its broker.
use mathlib.Core.Path.{subst}
use agent00x.Prelude.{
  ℕ, ◌+◌, ◌≤◌, Text, text_eq, member_text, false, ◌||◌, List, [], ◌∷◌, ◌++◌, Kind, Result, ok, err,
  length, ◌≡◌, ◌≢◌, refl, arith, Outcome, length-append, inl, inr, ◌⊎◌, sym, ap, ◌∙◌, text_eq_iff,
}
use agent00x.Broker.{Broker, ChannelFactory, new_broker, spend}
use agent00x.Broker.Brokered.{publish_brokered}
use agent00x.Broker.Gates.{IsAdmitted, publish_brokered-cases, id_of}
use agent00x.Clock.{DateTime}
use agent00x.Gateway.{GatewayDecision}
use agent00x.Host.{Host}
use agent00x.Publication.Authorized.{refused_without_effect}
use agent00x.Publication.Receipts.{Receipt}
use agent00x.Values.{Value, Fields}
use agent00x.Workflow.{Object}

-- No text occurs twice.
abbrev pub AreDistinct : List Text → Type 0
AreDistinct [] = Unit
AreDistinct (x ∷ xs) = (member_text x xs ≡ false) × AreDistinct xs

member_text-append :
    (x y : Text) (xs : List Text) → member_text x (xs ++ y ∷ []) ≡ (member_text x xs || text_eq x y)
unfolding member_text
member_text-append x y [] = ground arith
member_text-append x y (z ∷ xs) = ground (arith, member_text-append x y xs)

AreDistinct-append :
    (y : Text) (xs : List Text)
    → AreDistinct xs
    → member_text y xs ≡ false
    → AreDistinct (xs ++ y ∷ [])
unfolding member_text
AreDistinct-append y [] d h = (refl, tt)
AreDistinct-append y (x ∷ xs) d h = (
  ground (arith, member_text-append x y xs, text_eq_iff x y, text_eq_iff y x),
  AreDistinct-append y xs d.1 (ground arith),
)

-- What the broker remembers: the grants that it opened are the used ones, and none is there twice.
pub record IsSingleUse (b : Broker) : Type 0 where
  pub distinct : AreDistinct b.opened_grants
  pub remembered : (x : Text) → member_text x b.opened_grants ≡ member_text x b.used_grants

spend-IsSingleUse :
    (g : Text) (b : Broker)
    → IsSingleUse b
    → member_text g b.used_grants ≡ false
    → IsSingleUse (spend g b)
unfolding spend member_text
spend-IsSingleUse g b v new = record {
  distinct = AreDistinct-append g b.opened_grants v.distinct (v.remembered g ∙ new);
  remembered = λ x. ground (arith, member_text-append x g b.opened_grants, v.remembered x);
}

-- One where a call returned a receipt.
abbrev pub receipts : Result Receipt → ℕ
receipts (ok _) = 1
receipts (err _ _) = 0

module _ (host : Host) {E : Type 0} (factory : ChannelFactory E) where
  -- What calls of `publish_pull_request` lead to, from a new broker, and how many receipts they
  -- returned.
  pub data Reach : Broker × E → ℕ → Type 0 where
    start : {e : E} {b : Broker} → b ≡ new_broker → Reach (b, e) 0
    call :
        {b b' : Broker} {e e' : E} {n n' : ℕ} {result : Result Receipt}
        → Reach (b, e) n
        → (request grant decision approval_valid : Value)
          (gateway_decision : Object GatewayDecision) (intent : Value) (now : Object DateTime)
          (approval : Value)
        → publish_brokered host factory request grant decision approval_valid gateway_decision
            intent now approval
            (b, e)
          ≡ (result, (b', e'))
        → n' ≡ n + receipts result
        → Reach (b', e') n'

  call_step :
      (request grant decision approval_valid : Value) (gateway_decision : Object GatewayDecision)
      (intent : Value) (now : Object DateTime) (approval : Value) (b b' : Broker) (e e' : E)
      (result : Result Receipt)
      → publish_brokered host factory request grant decision approval_valid gateway_decision intent
          now approval
          (b, e)
        ≡ (result, (b', e'))
      → ((b' ≡ b) × (receipts result ≡ 0))
        ⊎ ((g : Text) × (member_text g b.used_grants ≡ false) × (b' ≡ spend g b))
  call_step request grant decision approval_valid gateway_decision intent now approval b b' e e'
        result h =
      elim (publish_brokered-cases host factory request grant decision approval_valid
        gateway_decision intent now approval b e) [
          | inl refused ↦ let (k, m, at) = refused in inl (kept k m e at)
          | inr admitted ↦
              let (g, conditions, left) = admitted in
              elim left [
                | inl failed ↦ let (k, m, e'', at) = failed in inl (kept k m e'' at)
                | inr spent ↦ inr (
                  id_of g,
                  conditions.2,
                  sym (ap (λ (o : Outcome (Broker × E) Receipt). o.1.0) h) ∙ spent,
                )
              ]
        ]
    where
      kept :
          (k : Kind) (m : Text) (e'' : E)
          → publish_brokered host factory request grant decision approval_valid gateway_decision
              intent now approval
              (b, e)
            ≡ (err k m, (b, e''))
          → (b' ≡ b) × (receipts result ≡ 0)
      kept k m e'' at =
          let same = sym h ∙ at in
          (
            ap (λ (o : Outcome (Broker × E) Receipt). o.1.0) same,
            ap (λ (o : Outcome (Broker × E) Receipt). receipts o.0) same,
          )

  step_kept :
      (b b' : Broker) (n n' r : ℕ)
      → IsSingleUse b × (n ≤ length b.opened_grants)
      → n' ≡ n + r
      → (b' ≡ b) × (r ≡ 0)
      → IsSingleUse b' × (n' ≤ length b'.opened_grants)
  step_kept b b' n n' r v e h =
      subst (λ c. IsSingleUse c × (n' ≤ length c.opened_grants)) (sym h.0) (v.0, omega arith)

  step_spent :
      (g : Text) (b b' : Broker) (n n' r : ℕ)
      → IsSingleUse b × (n ≤ length b.opened_grants)
      → n' ≡ n + r
      → r ≤ 1
      → member_text g b.used_grants ≡ false
      → b' ≡ spend g b
      → IsSingleUse b' × (n' ≤ length b'.opened_grants)
  unfolding spend
  step_spent g b b' n n' r v e one new h =
      subst (λ c. IsSingleUse c × (n' ≤ length c.opened_grants)) (sym h)
        (spend-IsSingleUse g b v.0 new, omega (arith, length-append b.opened_grants (g ∷ [])))

  receipts-le : (r : Result Receipt) → receipts r ≤ 1
  receipts-le (ok _) = omega arith
  receipts-le (err _ _) = omega arith

  -- Whatever is called, from a new broker, no grant is opened twice, the opened grants are those
  -- remembered as used, and the calls that returned a receipt are at most as many as the grants.
  pub Reach-IsSingleUse :
      {b : Broker} {e : E} {n : ℕ} → Reach (b, e) n → IsSingleUse b × (n ≤ length b.opened_grants)
  unfolding new_broker
  Reach-IsSingleUse (start h) =
      subst (λ c. IsSingleUse c × (0 ≤ length c.opened_grants)) (sym h)
        (record { distinct = tt; remembered = λ x. refl }, omega arith)
  Reach-IsSingleUse
        (call {b} {b'} {e} {e'} {n} {n'} {result} r request grant decision approval_valid
          gateway_decision intent now approval h count) =
      elim (call_step request grant decision approval_valid gateway_decision intent now approval b
        b' e e' result h) [
          | inl kept ↦ step_kept b b' n n' (receipts result) (Reach-IsSingleUse r) count kept
          | inr spent ↦
              let (g, new, at) = spent in
              step_spent g b b' n n' (receipts result) (Reach-IsSingleUse r) count
                (receipts-le result) new at
        ]

  -- Where a call of the brokered actuator changes the broker or anything else, or returns a
  -- receipt: the decision is a usable allow, the approval names the digest of this intent, the
  -- gateway allowed the slow path, and the grant is new to the broker, single-use, not expired, of
  -- the GitHub class, for the actuator, repository and operation of the request, and names its digest.
  pub publish_brokered-IsAdmitted :
      (request grant decision approval_valid : Value) (gateway_decision : Object GatewayDecision)
      (intent : Value) (now : Object DateTime) (approval : Value) (b : Broker) (e : E)
      → ((publish_brokered host factory request grant decision approval_valid gateway_decision
            intent now approval
            (b, e)).1
          ≢ (b, e))
        ⊎ ((receipt : Receipt) × ((publish_brokered host factory request grant decision
                approval_valid gateway_decision intent now approval
                (b, e)).0
              ≡ ok receipt))
      → (g : Fields) × IsAdmitted host factory request grant decision approval_valid
          gateway_decision intent now approval b e g
  publish_brokered-IsAdmitted request grant decision approval_valid gateway_decision intent now
        approval b e effect =
      elim (publish_brokered-cases host factory request grant decision approval_valid
        gateway_decision intent now approval b e) [
          | inl refused ↦ let (k, m, at) = refused in refused_without_effect k m at effect
          | inr admitted ↦ (admitted.0, admitted.1)
        ]
