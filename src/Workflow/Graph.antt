-- ===== src/Workflow/Graph.antt =====
-- The workflow graph as a relation, against `transition`.
use agent00x.Prelude.{Bool-cases, ◌↔◌, ◌≡◌, refl, true, false, arith, ok, inl, inr}
use agent00x.Values.{Value, is_true}
use agent00x.Workflow.{
  ProcessState, received, specified, authorized, executing, verifying, staged, waiting_approval,
  applying, completed, waiting_input, quarantined, rejected, failed, reconciliation_required,
  cancelled, TransitionEvidence, instance_of, step, transition, terminal, normal, required,
  flags_boolean,
}

abbrev Holds : Value → Type 0
Holds v = is_true v ≡ true

-- One edge of the workflow, with the evidence that it asks for.
pub data Edge (e : TransitionEvidence) : ProcessState → ProcessState → Type 0 where
  specify : Holds e.contract_complete → Edge e received specified
  authorize : Holds e.policy_allowed → Edge e specified authorized
  execute : Edge e authorized executing
  submit : Holds e.artifact_digest → Edge e executing verifying
  stage : Holds e.verification_passed → Holds e.staged_digest → Edge e verifying staged
  ask : Holds e.staged_digest → Edge e staged waiting_approval
  apply : Holds e.approval_valid → Holds e.staged_digest → Edge e waiting_approval applying
  complete : Holds e.receipt_present → Holds e.postcondition_verified → Edge e applying completed
  reconcile :
      Holds e.receipt_present
      → Holds e.postcondition_verified
      → Edge e reconciliation_required completed
  lose : Edge e applying reconciliation_required
  rework_verifying : Edge e verifying executing
  rework_staged : Edge e staged executing
  rework_approval : Edge e waiting_approval executing
  retry : Edge e quarantined executing
  pause_received : Edge e received waiting_input
  pause_specified : Edge e specified waiting_input
  resume : Edge e waiting_input specified
  hold_executing : Edge e executing quarantined
  hold_verifying : Edge e verifying quarantined
  reject_received : Edge e received rejected
  reject_specified : Edge e specified rejected
  reject_authorized : Edge e authorized rejected
  reject_verifying : Edge e verifying rejected
  reject_approval : Edge e waiting_approval rejected
  reject_quarantined : Edge e quarantined rejected
  fail_executing : Edge e executing failed
  fail_verifying : Edge e verifying failed
  fail_applying : Edge e applying failed
  fail_reconciliation : Edge e reconciliation_required failed
  cancel_received : Edge e received cancelled
  cancel_specified : Edge e specified cancelled
  cancel_authorized : Edge e authorized cancelled
  cancel_executing : Edge e executing cancelled
  cancel_staged : Edge e staged cancelled
  cancel_approval : Edge e waiting_approval cancelled
  cancel_waiting : Edge e waiting_input cancelled
  cancel_quarantined : Edge e quarantined cancelled

ruleset edges = (
  specify, authorize, execute, submit, stage, ask, apply, complete, reconcile, lose,
  rework_verifying, rework_staged, rework_approval, retry, pause_received, pause_specified, resume,
  hold_executing, hold_verifying, reject_received, reject_specified, reject_authorized,
  reject_verifying, reject_approval, reject_quarantined, fail_executing, fail_verifying,
  fail_applying, fail_reconciliation, cancel_received, cancel_specified, cancel_authorized,
  cancel_executing, cancel_staged, cancel_approval, cancel_waiting, cancel_quarantined,
)

-- `pub`, since the traces are read off the edges.
pub step-Edge : (c t : ProcessState) (e : TransitionEvidence) → step c t e ≡ ok t → Edge e c t
unfolding step normal required terminal
step-Edge received t e h = grind (arith, edges)
step-Edge _ t e h = grind (arith, edges)

pub Edge-step : (c t : ProcessState) (e : TransitionEvidence) → Edge e c t → step c t e ≡ ok t
unfolding step normal required terminal
Edge-step _ _ e (specify h) = rw h
Edge-step _ _ e (authorize h) = rw h
Edge-step _ _ e (submit h) = rw h
Edge-step _ _ e (stage h k) = rw (h, k)
Edge-step _ _ e (ask h) = rw h
Edge-step _ _ e (apply h k) = rw (h, k)
Edge-step _ _ e (complete h k) = rw (h, k)
Edge-step _ _ e (reconcile h k) = rw (h, k)
Edge-step _ _ e _ = refl

-- `transition` returns a target state exactly when every evidence flag is a `bool` and the
-- workflow graph has an edge to it whose evidence holds.
pub transition_iff :
    (c t : ProcessState) (e : TransitionEvidence)
    → (transition (instance_of c) (instance_of t) (instance_of e) ≡ ok t)
      ↔ ((flags_boolean e ≡ true) × Edge e c t)
unfolding transition
transition_iff c t e = elim (Bool-cases (flags_boolean e)) [
  | inl flags ↦
      (λ h. (flags, step-Edge c t e (rw flags at h)), λ (_, edge). rw flags (Edge-step c t e edge))
  | inr flags ↦ (λ h. absurd (refused flags h), λ (h, _). cc)
]
  where
    refused :
        flags_boolean e ≡ false
        → transition (instance_of c) (instance_of t) (instance_of e) ≡ ok t
        → ⊥
    refused flags h = ground arith
