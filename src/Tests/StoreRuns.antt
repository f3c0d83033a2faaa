-- ===== src/Tests/StoreRuns.antt =====
-- src/app_contracts/runtime_store.py on concrete inputs: one process from creation to `completed`.
use mathlib.Core.Path.{subst}
use agent00x.Prelude.{
  ◌++◌, ap, arith, ◌≢◌, Kind, err, inr, Result, some, suc, length, List, ℕ, text, ◌≡◌, refl, [],
  ◌∷◌, none, ok, inl,
}
use agent00x.RuntimeAudit.{as_array, AuditView, audit_events, append_audit_event}
use agent00x.RuntimeAudit.RoundTrip.{audit_events-append_audit_event}
use agent00x.RuntimeSchema.{
  empty_db, encoded, ProcessEvent, timestamp, parse_state, Db, ProcessRow, value_of, events_of,
}
use agent00x.RuntimeStore.{evidence_dict, Plan, create, plan, commit_plan}
use agent00x.RuntimeStore.Concurrency.{Reach, Step, IsSound, Reach-IsSound}
use agent00x.RuntimeStore.History.{Chain, Chain-Run}
use agent00x.RuntimeStore.Promises.{commit_plan-once, completed-evidence}
use agent00x.RuntimeStore.Reads.{plan-Fits}
use agent00x.Tables.{select, find}
use agent00x.Values.{
  text_of, nil, cons, is_name, tuple, end, dict, is_true, is_bool, Value, str, int, pos,
}
use agent00x.Workflow.{
  waiting_input, required, normal, terminal, ProcessState, received, specified, authorized,
  executing, verifying, staged, waiting_approval, applying, completed, instance_of,
}
use agent00x.Workflow.Evidence.{full_evidence, VerifiedSince, ApprovedSince}

abbrev p1 : Value
p1 = str (text "p1")

-- The log, the row and the database of `p1` after a path of states, the newest first.
event_at : ProcessState → List ProcessState → ProcessEvent
event_at t [] = record {
  event_id = 1;
  process_id = text "p1";
  sequence = 0;
  previous_state = none;
  state = value_of t;
  evidence_json = encoded (dict end);
  occurred_at = 100;
}
event_at t (s ∷ path) = record {
  event_id = suc (length (s ∷ path));
  process_id = text "p1";
  sequence = length (s ∷ path);
  previous_state = some (value_of s);
  state = value_of t;
  evidence_json = encoded (evidence_dict full_evidence);
  occurred_at = 100;
}

log_of : List ProcessState → List ProcessEvent
unfolding event_at
log_of [] = []
log_of (t ∷ path) = event_at t path ∷ log_of path

row_of : ProcessState → ℕ → ProcessRow
row_of s v = record { process_id = text "p1"; state = value_of s; version = v; updated_at = 100 }

db_of : ProcessState → List ProcessState → Db
unfolding row_of log_of plan commit_plan text value_of parse_state timestamp select find is_bool
    terminal normal required is_true
db_of s path = record {
  processes = row_of s (length path) ∷ [];
  process_events = log_of (s ∷ path);
  audit_events = [];
  event_count = length (s ∷ path);
  audit_count = 0;
}

plan_of : ProcessState → ProcessState → List ProcessState → Plan
plan_of t s path = record {
  current = record { process_id = text "p1"; state = s; version = length path; updated_at = 100 };
  next_state = t;
  evidence_json = encoded (evidence_dict full_evidence);
  at = 100;
}

-- A read and the write that follows it.
Reach-advance :
    (t s : ProcessState) (path : List ProcessState) {ps : List Plan}
    → Reach (record { db = db_of s path; pending = ps })
    → plan 100 p1
        (instance_of t)
        (instance_of full_evidence)
        (int (pos (length path)))
        none
        (db_of s path)
      ≡ ok (plan_of t s path)
    → (commit_plan (plan_of t s path) (db_of s path)).1 ≡ db_of t (s ∷ path)
    → Reach (record { db = db_of t (s ∷ path); pending = plan_of t s path ∷ ps })
Reach-advance t s path {ps} r planned written =
    subst (λ (d : Db). Reach (record { db = d; pending = plan_of t s path ∷ ps })) written
      (Reach.next (Reach.next r (Step.reads 100 p1 _ _ _ none (plan_of t s path) planned))
        (Step.writes (plan_of t s path) (inl refl)))

Reach-created : Reach (record { db = db_of received []; pending = [] })
unfolding create db_of
Reach-created = Reach.next Reach.here (Step.creates 100 p1 none)

abbrev pending_specified : List Plan
pending_specified = plan_of specified received [] ∷ []

abbrev path_specified : List ProcessState
path_specified = received ∷ []

Reach-specified :
    Reach (record { db = db_of specified path_specified; pending = pending_specified })
unfolding db_of plan_of
Reach-specified = Reach-advance specified received [] Reach-created refl refl

abbrev pending_authorized : List Plan
pending_authorized = plan_of authorized specified path_specified ∷ pending_specified

abbrev path_authorized : List ProcessState
path_authorized = specified ∷ path_specified

Reach-authorized :
    Reach (record { db = db_of authorized path_authorized; pending = pending_authorized })
unfolding db_of plan_of
Reach-authorized = Reach-advance authorized specified path_specified Reach-specified refl refl

abbrev pending_executing : List Plan
pending_executing = plan_of executing authorized path_authorized ∷ pending_authorized

abbrev path_executing : List ProcessState
path_executing = authorized ∷ path_authorized

Reach-executing :
    Reach (record { db = db_of executing path_executing; pending = pending_executing })
unfolding db_of plan_of
Reach-executing = Reach-advance executing authorized path_authorized Reach-authorized refl refl

abbrev pending_verifying : List Plan
pending_verifying = plan_of verifying executing path_executing ∷ pending_executing

abbrev path_verifying : List ProcessState
path_verifying = executing ∷ path_executing

Reach-verifying :
    Reach (record { db = db_of verifying path_verifying; pending = pending_verifying })
unfolding db_of plan_of
Reach-verifying = Reach-advance verifying executing path_executing Reach-executing refl refl

abbrev pending_staged : List Plan
pending_staged = plan_of staged verifying path_verifying ∷ pending_verifying

abbrev path_staged : List ProcessState
path_staged = verifying ∷ path_verifying

Reach-staged : Reach (record { db = db_of staged path_staged; pending = pending_staged })
unfolding db_of plan_of
Reach-staged = Reach-advance staged verifying path_verifying Reach-verifying refl refl

abbrev pending_waiting_approval : List Plan
pending_waiting_approval = plan_of waiting_approval staged path_staged ∷ pending_staged

abbrev path_waiting_approval : List ProcessState
path_waiting_approval = staged ∷ path_staged

Reach-waiting_approval : Reach (record {
  db = db_of waiting_approval path_waiting_approval;
  pending = pending_waiting_approval;
})
unfolding db_of plan_of
Reach-waiting_approval = Reach-advance waiting_approval staged path_staged Reach-staged refl refl

abbrev pending_applying : List Plan
pending_applying =
    plan_of applying waiting_approval path_waiting_approval ∷ pending_waiting_approval

abbrev path_applying : List ProcessState
path_applying = waiting_approval ∷ path_waiting_approval

Reach-applying : Reach (record { db = db_of applying path_applying; pending = pending_applying })
unfolding db_of plan_of
Reach-applying =
    Reach-advance applying waiting_approval path_waiting_approval Reach-waiting_approval refl refl

abbrev pending_completed : List Plan
pending_completed = plan_of completed applying path_applying ∷ pending_applying

abbrev path_completed : List ProcessState
path_completed = applying ∷ path_applying

Reach-completed :
    Reach (record { db = db_of completed path_completed; pending = pending_completed })
unfolding db_of plan_of
Reach-completed = Reach-advance completed applying path_applying Reach-applying refl refl

completed-evidence_example :
    (chain : Chain
      (events_of (text "p1") (db_of completed path_completed).process_events)
      8
      completed)
    × VerifiedSince (Chain-Run chain)
    × ApprovedSince (Chain-Run chain)
unfolding db_of text
completed-evidence_example =
    completed-evidence Reach-completed (text "p1") (row_of completed 8) refl refl

Reach-IsSound_example : IsSound (record { db = db_of staged path_staged; pending = pending_staged })
Reach-IsSound_example = Reach-IsSound Reach-staged

-- Two connections plan from version 0; one writes.
Reach-race : Reach (record {
  db = db_of specified (received ∷ []);
  pending = plan_of waiting_input received [] ∷ plan_of specified received [] ∷ [];
})
unfolding db_of plan_of
Reach-race =
    Reach.next
      (Reach.next
        (Reach.next Reach-created (
          Step.reads 100 p1 (instance_of specified) (instance_of full_evidence) (int (pos 0)) none
            (plan_of specified received []) refl))
        (Step.reads 100 p1 (instance_of waiting_input) (instance_of full_evidence) (int (pos 0))
          none (plan_of waiting_input received []) refl))
      (Step.writes (plan_of specified received []) (inr (inl refl)))

commit_plan-once_example :
    commit_plan
      (plan_of waiting_input received [])
      (commit_plan (plan_of specified received []) (db_of received [])).1
    ≡ (
      err Kind.version_conflict (text "concurrent update"),
      (commit_plan (plan_of specified received []) (db_of received [])).1,
    )
unfolding db_of plan_of
commit_plan-once_example =
    commit_plan-once (plan_of specified received []) (plan_of waiting_input received [])
      (db_of received []) (Reach-IsSound Reach-created).valid
      (plan-Fits 100 p1 (instance_of specified) (instance_of full_evidence) (int (pos 0)) none
        (db_of received []) (plan_of specified received []) (Reach-IsSound Reach-created).valid
        refl)
      (Reach-IsSound Reach-race).fitting.0 refl refl
      (λ e. one_not_two (ap (λ (d : Db). d.event_count) e))
  where
    one_not_two : ◌≢◌ {A = ℕ} 2 1
    one_not_two = omega arith

audited : Result Db
audited =
    append_audit_event 100 p1 (str (text "operator")) (str (text "gateway.request"))
      (str (text "sha256:00")) (str (text "allowed")) (tuple (cons (str (text "fast")) nil)) none
      (db_of received [])

after_audit : Result Db → Db
after_audit (ok db) = db
after_audit (err _ _) = empty_db

audit_events-append_audit_event_example :
    (view : AuditView) × (audit_events p1 (after_audit audited) ≡ ok ([] ++ view ∷ []))
    × (view.actor_id ≡ text_of (str (text "operator")))
    × (view.event_type ≡ text_of (str (text "gateway.request")))
    × (view.input_digest ≡ text_of (str (text "sha256:00")))
    × (view.result ≡ text_of (str (text "allowed")))
    × (view.reason_codes ≡ as_array (tuple (cons (str (text "fast")) nil)))
unfolding audited after_audit append_audit_event audit_events db_of is_name text_of
audit_events-append_audit_event_example =
    audit_events-append_audit_event 100 p1 (str (text "operator")) (str (text "gateway.request"))
      (str (text "sha256:00")) (str (text "allowed")) (tuple (cons (str (text "fast")) nil)) none
      (db_of received []) (after_audit audited) [] refl refl
