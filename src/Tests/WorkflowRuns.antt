-- ===== src/Tests/WorkflowRuns.antt =====
-- src/app_contracts/state_machine.py on concrete inputs.
use agent00x.Prelude.{false, ◌≡◌, refl, ok, err, Kind, text}
use agent00x.Values.{is_bool, is_true, bool, int, pos}
use agent00x.Workflow.{
  required, normal, terminal, received, staged, completed, executing, verifying, instance_of,
  foreign, transition, flags_boolean,
}
use agent00x.Workflow.Evidence.{
  full_evidence, nonterminal-completes, verified-VerifiedSince, effectful-ApprovedSince,
  VerifiedSince, ApprovedSince, Run,
}
use agent00x.Workflow.Graph.{Edge, transition_iff}

completes : Run received completed
unfolding terminal
completes = nonterminal-completes received refl

-- A flag that is no `bool` is refused before the states are looked at.
number_as_flag :
    transition
      (instance_of received)
      foreign
      (instance_of (record full_evidence { staged_digest = int (pos 1) }))
    ≡ err Kind.invalid_transition (text "transition evidence flags must be boolean")
unfolding transition is_bool
number_as_flag = refl

missing_evidence :
    transition
      (instance_of verifying)
      (instance_of staged)
      (instance_of (record full_evidence { verification_passed = bool false }))
    ≡ err Kind.invalid_transition (text "transition lacks required evidence")
unfolding transition is_bool normal terminal required is_true
missing_evidence = refl

transition_iff_example :
    transition (instance_of verifying) (instance_of staged) (instance_of full_evidence) ≡ ok staged
unfolding is_true flags_boolean is_bool
transition_iff_example =
    (transition_iff verifying staged full_evidence).1 (refl, Edge.stage refl refl)

verified-VerifiedSince_example : VerifiedSince completes
verified-VerifiedSince_example = verified-VerifiedSince completes refl

effectful-ApprovedSince_example : ApprovedSince completes
effectful-ApprovedSince_example = effectful-ApprovedSince completes refl

nonterminal-completes_example : Run executing completed
unfolding terminal
nonterminal-completes_example = nonterminal-completes executing refl
