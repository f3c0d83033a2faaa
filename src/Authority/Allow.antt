-- ===== src/Authority/Allow.antt =====
-- What an `allow` of `DeterministicPolicy.decide` rests on.
use agent00x.Prelude.{
  not-false, ◌∙◌, text_eq_refl, ap, ℕ, Text, text, text_eq, Bool, true, false, not, Option, none,
  some, List, [], Kind, Result, ok, err, ◌>>=◌, ◌≡◌, ◌≢◌, refl, arith, bind_returns,
  raise_if_passes,
}
use agent00x.ApprovalSignature.{verify_approval_signature}
use agent00x.Authority.{require_clock, validate_approval}
use agent00x.Authority.Policy.{
  decision_of, names_request, judge, decide, replace_text, approver_listed, request_differs, key_of,
  judge_intent, judge_signature, Verdict, judge_approval, deny, PolicyConfig,
}
use agent00x.Clock.{DateTime}
use agent00x.Digests.{sha256_digest}
use agent00x.Host.{Host}
use agent00x.Values.{
  lookup, Value, str, dict, Fields, get, py_eq, text_of, as_dict, in_names, fields_of,
}
use agent00x.Values.Dicts.{as_dict-ok}
use agent00x.Workflow.{Object}

different : {s t : Text} → text_eq s t ≡ false → s ≢ t
different {s} {t} h = ground (arith, text_eq_refl s)

deny-refuses : (reason : Text) (v : Verdict) → ok (deny reason) ≡ ok v → v.effect ≢ text "allow"
unfolding deny text text_eq
deny-refuses reason v h e = different refl (the_effect ∙ e)
  where
    the_effect : text "deny" ≡ v.effect
    the_effect = ap (λ (r : Result Verdict). elim r [ ok w ↦ w.effect | err _ _ ↦ text "deny" ]) h

-- The approver's key is known and verifies the signature.
abbrev pub Signed : Host → PolicyConfig → Fields → Type 0
Signed host config a =
    (key : List ℕ) × (key_of (text_of (get a (text "approver_id")))
        config.trusted_approver_public_keys
      ≡ some key)
    × (verify_approval_signature host a key ≡ true)

module _ (host : Host) (config : PolicyConfig) where
  judge_signature-allow :
      (a : Fields) (found : Option (List ℕ)) (v : Verdict)
      → judge_signature host a found ≡ ok v
      → v.effect ≡ text "allow"
      → (key : List ℕ) × (found ≡ some key) × (verify_approval_signature host a key ≡ true)
  unfolding judge_signature
  judge_signature-allow a none v h e = ground arith
  judge_signature-allow a (some key) v h e =
      (key, refl, ground (arith, deny-refuses (text "approval-signature-invalid") v))

  judge_approval-allow :
      (a : Fields) (checked : Result (Unit {0})) (v : Verdict)
      → judge_approval host config a checked ≡ ok v
      → v.effect ≡ text "allow"
      → (checked ≡ ok tt) × Signed host config a
  unfolding judge_approval
  judge_approval-allow a (ok tt) v h e = (refl, judge_signature-allow a _ v h e)
  judge_approval-allow a (err k m) v h e = ground (
    arith,
    deny-refuses
        (replace_text (text " ") (text "-") (replace_text (text "approval: ") (text "approval-") m))
        v,
  )

  judge_intent-allow :
      (req : Fields) (approval staged_change : Value) (i : Fields) (now : Object DateTime)
      (v : Verdict)
      → judge_intent host config req approval staged_change i now ≡ ok v
      → v.effect ≡ text "allow"
      → (request_differs req i ≡ false)
        × (approver_listed config approval ≡ true)
        × (validate_approval host approval staged_change (dict i) config.version now ≡ ok tt)
        × Signed host config (fields_of approval)
  unfolding judge_intent
  judge_intent-allow req approval staged_change i now v h e = ground (
    arith,
    deny-refuses (text "request-intent-mismatch") v,
    deny-refuses (text "approver-not-allowlisted") v,
    judge_approval-allow (fields_of approval)
        (validate_approval host approval staged_change (dict i) config.version now) v,
  )

  -- The request asks for a registered operation on listed names and carries the digest.
  abbrev pub Listed : Fields → Text → Type 0
  Listed req digest =
      (py_eq (get req (text "operation")) (str (text "publish_pull_request")) ≡ true)
      × (in_names (get req (text "repository_id")) config.allowed_repositories ≡ true)
      × (in_names (get req (text "actuator_id")) config.allowed_actuators ≡ true)
      × (py_eq (get req (text "staged_change_digest")) (str digest) ≡ true)

  judge-allow :
      (req : Fields) (approval staged_change intent : Value) (now : Object DateTime) (digest : Text)
      (v : Verdict)
      → judge host config req approval staged_change intent now digest ≡ ok v
      → v.effect ≡ text "allow"
      → Listed req digest
        × ((do
          i ← as_dict intent Kind.attribute_error (text "object has no attribute 'get'")
          judge_intent host config req approval staged_change i now)
            ≡ ok v)
  unfolding judge
  judge-allow req approval staged_change intent now digest v h e = ground (
    arith,
    deny-refuses (text "operation-not-registered") v,
    deny-refuses (text "repository-not-allowlisted") v,
    deny-refuses (text "actuator-not-allowlisted") v,
    deny-refuses (text "request-digest-mismatch") v,
  )

  -- A decision is the dict of the verdict on its request.
  decide-judge :
      (available : Bool) (decision_id actuator_request approval staged_change intent : Value)
      (now : Object DateTime) (decision : Value)
      → decide host config available decision_id actuator_request approval staged_change intent now
        ≡ ok decision
      → (req : Fields) × (digest : Text) × (moment : ℕ) × (v : Verdict) × (available ≡ true)
        × (actuator_request ≡ dict req)
        × (sha256_digest host.sha256_hex staged_change ≡ ok digest)
        × (judge host config req approval staged_change intent now digest ≡ ok v)
        × (ok (decision_of host config decision_id req digest moment v) ≡ ok decision)
  unfolding decide
  decide-judge available decision_id actuator_request approval staged_change intent now decision h =
      let (is_open, h1) =
        raise_if_passes (not available) Kind.policy_unavailable
          (text "policy service is unavailable") _ h in
      let (moment, em, h2) = bind_returns (require_clock now) _ h1 in
      let (req, er, h3) = bind_returns (as_dict actuator_request _ _) _ h2 in
      let (named, h4) =
        raise_if_passes (not (names_request req)) Kind.contract_validation
          (text "policy: actuator request is malformed") _ h3 in
      let (digest, ed, h5) = bind_returns (sha256_digest host.sha256_hex staged_change) _ h4 in
      let (v, ev, h6) =
        bind_returns (judge host config req approval staged_change intent now digest) _ h5 in
      (
        req,
        digest,
        moment,
        v,
        not-false is_open,
        as_dict-ok actuator_request _ _ req er,
        ed,
        ev,
        h6,
      )

  decision_of-effect :
      (decision_id : Value) (req : Fields) (digest : Text) (moment : ℕ) (v : Verdict)
      (decision : Value)
      → ok (decision_of host config decision_id req digest moment v) ≡ ok decision
      → get (fields_of decision) (text "effect") ≡ str (text "allow")
      → v.effect ≡ text "allow"
  unfolding decision_of get lookup text text_eq fields_of text_of
  decision_of-effect decision_id req digest moment v decision h e =
      ap (λ r. elim r [ ok w ↦ text_of (get (fields_of w) (text "effect")) | err _ _ ↦ [] ]) h
      ∙ ap text_of e

  -- An `allow` decision was made while the service was available, on a request for the registered
  -- operation, an allowlisted repository and an allowlisted actuator that carries the digest of the
  -- staged change and agrees with the intent; the approver is allowlisted, the approval is valid
  -- for this intent and policy version, and a trusted key of the approver verifies its signature.
  pub decide-allow :
      (available : Bool) (decision_id actuator_request approval staged_change intent : Value)
      (now : Object DateTime) (decision : Value)
      → decide host config available decision_id actuator_request approval staged_change intent now
        ≡ ok decision
      → get (fields_of decision) (text "effect") ≡ str (text "allow")
      → (req i : Fields) × (digest : Text) × (available ≡ true)
        × (actuator_request ≡ dict req)
        × (intent ≡ dict i)
        × (sha256_digest host.sha256_hex staged_change ≡ ok digest)
        × Listed req digest
        × (request_differs req i ≡ false)
        × (approver_listed config approval ≡ true)
        × (validate_approval host approval staged_change (dict i) config.version now ≡ ok tt)
        × Signed host config (fields_of approval)
  decide-allow available decision_id actuator_request approval staged_change intent now decision h
        e =
      let (req, digest, moment, v, is_open, er, ed, ev, h1) =
        decide-judge available decision_id actuator_request approval staged_change intent now
          decision h in
      let e1 = decision_of-effect decision_id req digest moment v decision h1 e in
      let (listed, h2) = judge-allow req approval staged_change intent now digest v ev e1 in
      let (i, ei, h3) = bind_returns (as_dict intent _ _) _ h2 in
      let (same, named, valid, signed) =
        judge_intent-allow req approval staged_change i now v h3 e1 in
      (
        req,
        i,
        digest,
        is_open,
        er,
        as_dict-ok intent _ _ i ei,
        ed,
        listed,
        same,
        named,
        valid,
        signed,
      )
