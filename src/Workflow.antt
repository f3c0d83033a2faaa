-- ===== src/Workflow.antt =====
-- src/app_contracts/state_machine.py: the process states, the workflow graph, and `transition`.
pub mod Graph
pub mod Evidence
use agent00x.Prelude.{
  ℕ, text, Bool, true, false, ◌&&◌, ◌||◌, not, List, [], ◌∷◌, Result, ok, Kind, raise_if, ◌>>=◌,
  ◌>>◌, ◌==◌, err,
}
use agent00x.Values.{Value, is_bool, is_true}

pub data ProcessState : Type 0 where
  received specified authorized executing verifying staged waiting_approval : ProcessState
  applying completed waiting_input quarantined rejected failed : ProcessState
  reconciliation_required cancelled : ProcessState

abbrev pub rank : ProcessState → ℕ
rank received = 0
rank specified = 1
rank authorized = 2
rank executing = 3
rank verifying = 4
rank staged = 5
rank waiting_approval = 6
rank applying = 7
rank completed = 8
rank waiting_input = 9
rank quarantined = 10
rank rejected = 11
rank failed = 12
rank reconciliation_required = 13
rank cancelled = 14

abbrev pub same_state : ProcessState → ProcessState → Bool
same_state a b = rank a == rank b

abbrev pub contains : List ProcessState → ProcessState → Bool
contains [] a = false
contains (b ∷ bs) a = same_state a b || contains bs a

-- `_NORMAL.get(current, set())`
unfoldable pub normal : ProcessState → List ProcessState
normal received = specified ∷ waiting_input ∷ rejected ∷ cancelled ∷ []
normal specified = authorized ∷ waiting_input ∷ rejected ∷ cancelled ∷ []
normal authorized = executing ∷ rejected ∷ cancelled ∷ []
normal executing = verifying ∷ quarantined ∷ failed ∷ cancelled ∷ []
normal verifying = executing ∷ staged ∷ quarantined ∷ rejected ∷ failed ∷ []
normal staged = waiting_approval ∷ executing ∷ cancelled ∷ []
normal waiting_approval = applying ∷ executing ∷ rejected ∷ cancelled ∷ []
normal applying = completed ∷ failed ∷ reconciliation_required ∷ []
normal waiting_input = specified ∷ cancelled ∷ []
normal quarantined = executing ∷ rejected ∷ cancelled ∷ []
normal reconciliation_required = completed ∷ failed ∷ []
normal completed = []
normal rejected = []
normal failed = []
normal cancelled = []

-- `current in _TERMINAL`
unfoldable pub terminal : ProcessState → Bool
terminal completed = true
terminal rejected = true
terminal failed = true
terminal cancelled = true
terminal _ = false

-- A flag may hold any Python value: `transition` itself checks that it is a `bool`.
pub record TransitionEvidence : Type 0 where
  pub contract_complete : Value
  pub policy_allowed : Value
  pub artifact_digest : Value
  pub verification_passed : Value
  pub staged_digest : Value
  pub approval_valid : Value
  pub receipt_present : Value
  pub postcondition_verified : Value

-- An argument that `isinstance` tests: an instance of the class, or any other object.
pub data Object (A : Type 0) : Type 0 where
  instance_of : A → Object A
  foreign : Object A

unfoldable pub as_instance : {A : Type 0} → Object A → Kind → List ℕ → Result A
as_instance (instance_of a) k m = ok a
as_instance foreign k m = err k m

-- The loop over `_EVIDENCE_FLAGS`.
unfoldable pub flags_boolean : TransitionEvidence → Bool
flags_boolean e =
    is_bool e.contract_complete
    && (is_bool e.policy_allowed
        && (is_bool e.artifact_digest
            && (is_bool e.verification_passed
                && (is_bool e.staged_digest
                    && (is_bool e.approval_valid
                        && (is_bool e.receipt_present && is_bool e.postcondition_verified))))))

-- `requirements.get((current, target), True)`
unfoldable pub required : ProcessState → ProcessState → TransitionEvidence → Bool
required received specified e = is_true e.contract_complete
required specified authorized e = is_true e.policy_allowed
required executing verifying e = is_true e.artifact_digest
required verifying staged e = is_true e.verification_passed && is_true e.staged_digest
required staged waiting_approval e = is_true e.staged_digest
required waiting_approval applying e = is_true e.approval_valid && is_true e.staged_digest
required applying completed e = is_true e.receipt_present && is_true e.postcondition_verified
required reconciliation_required completed e =
    is_true e.receipt_present && is_true e.postcondition_verified
required _ _ e = true

-- The tests of `transition` after those of its arguments' classes.
unfoldable pub step : ProcessState → ProcessState → TransitionEvidence → Result ProcessState
step current target e = do
  raise_if (terminal current) Kind.invalid_transition (text "terminal state cannot transition")
  raise_if (not (contains (normal current) target)) Kind.invalid_transition
      (text "transition is not allowed")
  raise_if (not (required current target e)) Kind.invalid_transition
      (text "transition lacks required evidence")
  ok target

unfoldable pub transition :
    Object ProcessState → Object ProcessState → Object TransitionEvidence → Result ProcessState
unfolding as_instance flags_boolean step
transition current target evidence = do
  e ← as_instance evidence Kind.invalid_transition (text "transition evidence is invalid")
  raise_if (not (flags_boolean e)) Kind.invalid_transition
      (text "transition evidence flags must be boolean")
  c ← as_instance current Kind.invalid_transition (text "transition current state is invalid")
  t ← as_instance target Kind.invalid_transition (text "transition target is invalid")
  step c t e
