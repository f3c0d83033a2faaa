-- ===== src/RuntimeStore/History.antt =====
-- The rows and the event log of the process store: every row is the end of its process's chain of
-- events, and every event of the chain is a transition that `transition` accepts.
use agent00x.Prelude.{
  ℕ, zero, suc, ◌≤◌, ◌<◌, Text, ◌≡◌, refl, sym, ap, ◌∙◌, ◌⊎◌, inl, inr, false, Option, none, some,
  List, [], ◌∷◌, ok, arith, text,
}
use agent00x.RuntimeSchema.{
  value_of, parse_state, encoded, ProcessRow, ProcessEvent, Db, find_process, events_of,
  has_sequence,
}
use agent00x.RuntimeStore.{replace, Plan, evidence_dict, write_plan}
use agent00x.Workflow.{ProcessState, received, TransitionEvidence, instance_of, transition}
use agent00x.Workflow.Evidence.{Run}

-- The stored text of a state names that state alone.
pub parse_state-value_of : (s : ProcessState) → parse_state (value_of s) ≡ some s
unfolding parse_state value_of text
parse_state-value_of ProcessState.received = refl
parse_state-value_of _ = refl

pub value_of-injective : (s t : ProcessState) → value_of s ≡ value_of t → s ≡ t
value_of-injective s t h =
    let p : parse_state (value_of s) ≡ parse_state (value_of t) = ap parse_state h in
    cc (parse_state-value_of s, parse_state-value_of t)

-- The events of one process, the newest first, that lead from `received` to version `v` in state `s`.
pub data Chain : List ProcessEvent → ℕ → ProcessState → Type 0 where
  start :
      (e : ProcessEvent)
      → e.sequence ≡ 0
      → e.previous_state ≡ none
      → e.state ≡ value_of received
      → Chain (e ∷ []) zero received
  more :
      {es : List ProcessEvent} {v : ℕ} {s : ProcessState}
      → Chain es v s
      → (e : ProcessEvent) (t : ProcessState) (proof : TransitionEvidence) → e.sequence ≡ suc v
      → e.previous_state ≡ some (value_of s)
      → e.state ≡ value_of t
      → e.evidence_json ≡ encoded (evidence_dict proof)
      → transition (instance_of s) (instance_of t) (instance_of proof) ≡ ok t
      → Chain (e ∷ es) (suc v) t

abbrev pub Tracks : Option ProcessRow → List ProcessEvent → Type 0
Tracks none es = es ≡ []
Tracks (some row) es = (s : ProcessState) × (row.state ≡ value_of s) × Chain es row.version s

-- Every process has its row at the end of its chain, and no event without a row.
pub record IsValid (db : Db) : Type 0 where
  pub tracks :
      (pid : Text) → Tracks (find_process pid db.processes) (events_of pid db.process_events)

-- An event with this number and this state is in the log.
abbrev pub LoggedAt : ℕ → ProcessState → List ProcessEvent → Type 0
LoggedAt n t [] = ⊥
LoggedAt n t (e ∷ es) = (e.sequence ≡ n) × (e.state ≡ value_of t) ⊎ LoggedAt n t es

pub Chain-LoggedAt-le :
    {es : List ProcessEvent} {v : ℕ} {s : ProcessState}
    → Chain es v s
    → (n : ℕ) (t : ProcessState) → LoggedAt n t es
    → n ≤ v
Chain-LoggedAt-le (start e q p st) n t (inl (a, b)) = omega arith
Chain-LoggedAt-le (start e q p st) n t (inr h) = absurd h
Chain-LoggedAt-le (more c e u proof q p st j tr) n t (inl (a, b)) = omega arith
Chain-LoggedAt-le (more c e u proof q p st j tr) n t (inr h) =
    omega (arith, Chain-LoggedAt-le c n t h)

-- The log names one state at the newest version.
pub Chain-LoggedAt-eq :
    {es : List ProcessEvent} {v : ℕ} {s : ProcessState}
    → Chain es v s
    → (t : ProcessState) → LoggedAt v t es
    → t ≡ s
Chain-LoggedAt-eq (start e q p st) t (inl (a, b)) = value_of-injective _ _ (sym b ∙ st)
Chain-LoggedAt-eq (start e q p st) t (inr h) = absurd h
Chain-LoggedAt-eq (more c e u proof q p st j tr) t (inl (a, b)) =
    value_of-injective _ _ (sym b ∙ st)
Chain-LoggedAt-eq (more {v = v} c e u proof q p st j tr) t (inr h) =
    absurd (omega (arith, Chain-LoggedAt-le c (suc v) t h))

pub Chain-LoggedAt :
    {es : List ProcessEvent} {v : ℕ} {s : ProcessState} → Chain es v s → LoggedAt v s es
Chain-LoggedAt (start e q p st) = inl (q, st)
Chain-LoggedAt (more c e u proof q p st j tr) = inl (q, st)

pub Chain-fresh :
    {es : List ProcessEvent} {v : ℕ} {s : ProcessState}
    → Chain es v s
    → (n : ℕ) → v < n
    → has_sequence n es ≡ false
unfolding has_sequence
Chain-fresh (start e q p st) n h = ground arith
Chain-fresh (more {v = v} c e u proof q p st j tr) n h =
    ground (arith, Chain-fresh c n (omega arith))

-- A chain is a run of the workflow from `received`.
pub Chain-Run : {es : List ProcessEvent} {v : ℕ} {s : ProcessState} → Chain es v s → Run received s
Chain-Run (start e q p st) = Run.here
Chain-Run (more c e u proof q p st j tr) = Run.next (Chain-Run c) proof tr

-- What a plan knows of the log: the event that it read, and a transition out of its state.
pub record Fits (p : Plan) (db : Db) : Type 0 where
  pub logged :
      LoggedAt p.current.version p.current.state (events_of p.current.process_id db.process_events)
  pub proof : TransitionEvidence
  pub recorded : p.evidence_json ≡ encoded (evidence_dict proof)
  pub accepted :
      transition (instance_of p.current.state) (instance_of p.next_state) (instance_of proof)
      ≡ ok p.next_state

-- The event that a plan adds, and the row that it writes.
abbrev pub event_of_plan : Plan → Db → ProcessEvent
event_of_plan p db = record {
  event_id = suc db.event_count;
  process_id = p.current.process_id;
  sequence = suc p.current.version;
  previous_state = some (value_of p.current.state);
  state = value_of p.next_state;
  evidence_json = p.evidence_json;
  occurred_at = p.at;
}

abbrev pub row_of_plan : Plan → ProcessRow → ProcessRow
row_of_plan p row = record row {
  state = value_of p.next_state;
  version = suc p.current.version;
  updated_at = p.at;
}

abbrev pub advanced : Plan → ProcessRow → Db → Db
advanced p row db = record db {
  processes =
      replace (λ (r : ProcessRow). r.process_id) p.current.process_id (row_of_plan p row)
        db.processes;
  process_events = event_of_plan p db ∷ db.process_events;
  event_count = suc db.event_count;
}

module _ (p : Plan) (db : Db) (valid : IsValid db) (fits : Fits p db) where
  pub write_plan-current :
      (row : ProcessRow)
      → find_process p.current.process_id db.processes ≡ some row
      → row.version ≡ p.current.version
      → write_plan p db ≡ ok (advanced p row db)
  unfolding write_plan
  write_plan-current row found same =
      let tracked : Tracks (some row) (events_of p.current.process_id db.process_events) =
        rw found at (valid.tracks p.current.process_id) in
      let fresh = Chain-fresh tracked.2 (suc p.current.version) (omega arith) in
      ground (arith, found, same, fresh)
