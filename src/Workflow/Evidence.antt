-- ===== src/Workflow/Evidence.antt =====
-- What a run of accepted transitions has proved on its way.
use agent00x.Prelude.{◌≡◌, refl, ◌≢◌, Bool, true, false, arith, ok, ◌⊎◌, inl, inr}
use agent00x.Values.{bool, is_bool, is_true}
use agent00x.Workflow.{
  ProcessState, received, specified, authorized, executing, verifying, staged, waiting_approval,
  applying, completed, waiting_input, quarantined, rejected, failed, reconciliation_required,
  cancelled, TransitionEvidence, instance_of, step, transition, terminal, normal, required,
  flags_boolean,
}
use agent00x.Workflow.Graph.{transition_iff, Edge, Edge-step}

-- A sequence of transitions that `transition` accepted.
pub data Run (s : ProcessState) : ProcessState → Type 0 where
  here : Run s s
  next :
      {t u : ProcessState}
      → Run s t
      → (e : TransitionEvidence) → transition (instance_of t) (instance_of u) (instance_of e) ≡ ok u
      → Run s u

abbrev pub Passes : ProcessState → ProcessState → TransitionEvidence → Type 0
Passes t u e =
    (t ≡ verifying)
    × (u ≡ staged)
    × (is_true e.verification_passed ≡ true)
    × (is_true e.staged_digest ≡ true)

-- Since it last entered `executing`, the run went from `verifying` to `staged` with a passed
-- verification and a staged digest.
abbrev pub VerifiedSince : {s u : ProcessState} → Run s u → Type 0
VerifiedSince here = ⊥
VerifiedSince (next {t = t} {u = u} r e h) = (u ≢ executing) × (Passes t u e ⊎ VerifiedSince r)

abbrev Approves : ProcessState → ProcessState → TransitionEvidence → Type 0
Approves t u e =
    (t ≡ waiting_approval)
    × (u ≡ applying)
    × (is_true e.approval_valid ≡ true)
    × (is_true e.staged_digest ≡ true)

-- Since it last entered `executing`, the run went from `waiting_approval` to `applying` with a
-- valid approval and a staged digest.
abbrev pub ApprovedSince : {s u : ProcessState} → Run s u → Type 0
ApprovedSince here = ⊥
ApprovedSince (next {t = t} {u = u} r e h) = (u ≢ executing) × (Approves t u e ⊎ ApprovedSince r)

-- The states behind an approval, and those behind a verification.
abbrev pub effectful : ProcessState → Bool
effectful applying = true
effectful completed = true
effectful reconciliation_required = true
effectful _ = false

abbrev pub verified : ProcessState → Bool
verified staged = true
verified waiting_approval = true
verified s = effectful s

enters_verified :
    (t u : ProcessState) (e : TransitionEvidence)
    → step t u e ≡ ok u
    → verified u ≡ true
    → (u ≢ executing) × (Passes t u e ⊎ (verified t ≡ true))
unfolding step normal required terminal
enters_verified received u e h v = ground arith
enters_verified _ u e h v = ground arith

enters_effectful :
    (t u : ProcessState) (e : TransitionEvidence)
    → step t u e ≡ ok u
    → effectful u ≡ true
    → (u ≢ executing) × (Approves t u e ⊎ (effectful t ≡ true))
unfolding step normal required terminal
enters_effectful received u e h v = ground arith
enters_effectful _ u e h v = ground arith

transition-step :
    (t u : ProcessState) (e : TransitionEvidence)
    → transition (instance_of t) (instance_of u) (instance_of e) ≡ ok u
    → step t u e ≡ ok u
transition-step t u e h = Edge-step t u e ((transition_iff t u e).0 h).1

-- In every run from `received` to `staged`, `waiting_approval`, `applying`, `completed` or
-- `reconciliation_required`, a verification passed after the last entry into `executing`.
pub verified-VerifiedSince :
    {u : ProcessState} (r : Run received u) → verified u ≡ true → VerifiedSince r
verified-VerifiedSince here v = cc
verified-VerifiedSince (next {t = t} {u = u} r e h) v =
    let (fresh, from) = enters_verified t u e (transition-step t u e h) v in
    (
      fresh,
      elim from [ inl passes ↦ inl passes | inr before ↦ inr (verified-VerifiedSince r before) ],
    )

-- In every run from `received` to `applying`, `completed` or `reconciliation_required`, a valid
-- approval came after the last entry into `executing`.
pub effectful-ApprovedSince :
    {u : ProcessState} (r : Run received u) → effectful u ≡ true → ApprovedSince r
effectful-ApprovedSince here v = cc
effectful-ApprovedSince (next {t = t} {u = u} r e h) v =
    let (fresh, from) = enters_effectful t u e (transition-step t u e h) v in
    (fresh, elim from [ inl gate ↦ inl gate | inr before ↦ inr (effectful-ApprovedSince r before) ])

-- Evidence with every flag set.
abbrev pub full_evidence : TransitionEvidence
full_evidence = record {
  contract_complete = bool true;
  policy_allowed = bool true;
  artifact_digest = bool true;
  verification_passed = bool true;
  staged_digest = bool true;
  approval_valid = bool true;
  receipt_present = bool true;
  postcondition_verified = bool true;
}

-- One more transition at the start of a run.
prepend :
    {s t u : ProcessState} (e : TransitionEvidence)
    → transition (instance_of s) (instance_of t) (instance_of e) ≡ ok t
    → Run t u
    → Run s u
prepend e h here = next here e h
prepend e h (next r e' h') = next (prepend e h r) e' h'

step_full : {s t u : ProcessState} → Edge full_evidence s t → Run t u → Run s u
unfolding flags_boolean is_bool
step_full {s} {t} edge = prepend full_evidence ((transition_iff s t full_evidence).1 (refl, edge))

from_applying : Run applying completed
unfolding is_true
from_applying = step_full (Edge.complete refl refl) here

from_staged : Run staged completed
unfolding is_true
from_staged = step_full (Edge.ask refl) (step_full (Edge.apply refl refl) from_applying)

from_executing : Run executing completed
unfolding is_true
from_executing = step_full (Edge.submit refl) (step_full (Edge.stage refl refl) from_staged)

from_specified : Run specified completed
unfolding is_true
from_specified = step_full (Edge.authorize refl) (step_full Edge.execute from_executing)

-- From every state that is not terminal a run of accepted transitions leads to `completed`.
pub nonterminal-completes : (s : ProcessState) → terminal s ≡ false → Run s completed
unfolding terminal is_true
nonterminal-completes received h = step_full (Edge.specify refl) from_specified
nonterminal-completes specified h = from_specified
nonterminal-completes authorized h = step_full Edge.execute from_executing
nonterminal-completes executing h = from_executing
nonterminal-completes verifying h = step_full (Edge.stage refl refl) from_staged
nonterminal-completes staged h = from_staged
nonterminal-completes waiting_approval h = step_full (Edge.apply refl refl) from_applying
nonterminal-completes applying h = from_applying
nonterminal-completes waiting_input h = step_full Edge.resume from_specified
nonterminal-completes quarantined h = step_full Edge.retry from_executing
nonterminal-completes reconciliation_required h = step_full (Edge.reconcile refl refl) here
nonterminal-completes completed h = cc
nonterminal-completes rejected h = cc
nonterminal-completes failed h = cc
nonterminal-completes cancelled h = cc
