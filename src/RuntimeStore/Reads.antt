-- ===== src/RuntimeStore/Reads.antt =====
-- What `get` and the reading half of `advance` return.
use mathlib.Core.Path.{subst}
use agent00x.Prelude.{
  List, ℕ, ◌≡◌, refl, sym, ap, ◌∙◌, Option, none, some, ok, arith, bind_returns, raise_if_passes,
}
use agent00x.RuntimeSchema.{
  ProcessEvent, parse_state, ProcessRow, Db, ProcessRecord, find_process, events_of, checked_id,
  read_row, get, DateTime, timestamp,
}
use agent00x.RuntimeStore.{Plan, plan, json_of, expected_number}
use agent00x.RuntimeStore.History.{
  Chain, parse_state-value_of, Tracks, IsValid, Fits, Chain-LoggedAt, LoggedAt,
}
use agent00x.Tables.{find-key}
use agent00x.Values.{Value, str}
use agent00x.Workflow.{ProcessState, TransitionEvidence, Object, instance_of, foreign, transition}

read_row-ok :
    (row : Option ProcessRow) (r : ProcessRecord)
    → read_row row ≡ ok r
    → (found : ProcessRow) × (row ≡ some found)
      × (found.process_id ≡ r.process_id)
      × (found.version ≡ r.version)
      × (parse_state found.state ≡ some r.state)
unfolding read_row
read_row-ok none r h = cc
read_row-ok (some row) r h = (row, refl, ground arith, ground arith, ground arith)

-- A record that `get` returns is a row of the table, under the given identity.
pub get-ok :
    (v : Value) (db : Db) (r : ProcessRecord)
    → get v db ≡ ok r
    → (row : ProcessRow) × (v ≡ str r.process_id)
      × (find_process r.process_id db.processes ≡ some row)
      × (row.version ≡ r.version)
      × (parse_state row.state ≡ some r.state)
unfolding get
get-ok (str pid) db r h =
    let (checked, e, h') = bind_returns (checked_id (str pid)) _ h in
    let same : checked ≡ pid = unfold checked_id in ground (arith, e) in
    let (row, found, own, version, state) = read_row-ok (find_process checked db.processes) r h' in
    let key : row.process_id ≡ checked = find-key _ checked db.processes row found in
    (row, cc, rw (sym own ∙ key) found, version, state)
get-ok Value.null db r h = cc
get-ok (Value.bool b) db r h = cc
get-ok (Value.int n) db r h = cc
get-ok (Value.list xs) db r h = cc
get-ok (Value.tuple xs) db r h = cc
get-ok (Value.dict d) db r h = cc
get-ok (Value.object n) db r h = cc

head_logged :
    {es : List ProcessEvent} {v : ℕ} {s : ProcessState} (n : ℕ) (t : ProcessState)
    → Chain es v s
    → v ≡ n
    → some s ≡ some t
    → LoggedAt n t es
head_logged {s = s} n t chain e f = let g : s ≡ t = cc in rw (← e, ← g) (Chain-LoggedAt chain)

tracked_logged :
    (r : ProcessRecord) (row : ProcessRow) (es : List ProcessEvent)
    → Tracks (some row) es
    → row.version ≡ r.version
    → parse_state row.state ≡ some r.state
    → LoggedAt r.version r.state es
tracked_logged r row es (s, stored, chain) version state =
    head_logged r.version r.state chain version
      (sym (parse_state-value_of s) ∙ ap parse_state (sym stored) ∙ state)

-- In a valid database the record's version and state are the newest of the log.
pub get-LoggedAt :
    (v : Value) (db : Db) (r : ProcessRecord)
    → IsValid db
    → get v db ≡ ok r
    → LoggedAt r.version r.state (events_of r.process_id db.process_events)
get-LoggedAt v db r valid h =
    let (row, _, found, version, state) = get-ok v db r h in
    tracked_logged r row (events_of r.process_id db.process_events)
      (rw found at (valid.tracks r.process_id)) version state

transition-ok_args :
    (s t : ProcessState) (target : Object ProcessState) (evidence : Object TransitionEvidence)
    → transition (instance_of s) target evidence ≡ ok t
    → (e : TransitionEvidence) × (target ≡ instance_of t) × (evidence ≡ instance_of e)
unfolding transition
transition-ok_args s t (instance_of u) (instance_of e) h = (e, ground arith, refl)
transition-ok_args s t foreign (instance_of e) h = absurd (ground arith)
transition-ok_args s t (instance_of u) foreign h = cc
transition-ok_args s t foreign foreign h = cc

ok-injective : {A : Type 0} {a b : A} → ok a ≡ ok b → a ≡ b
ok-injective h = cc

planned-Fits :
    (current : ProcessRecord) (next : ProcessState) (at : ℕ) (target : Object ProcessState)
    (evidence : Object TransitionEvidence) (db : Db) (p : Plan)
    → IsValid db
    → (v : Value) → get v db ≡ ok current
    → transition (instance_of current.state) target evidence ≡ ok next
    → record { current = current; next_state = next; evidence_json = json_of evidence; at = at } ≡ p
    → Fits p db
unfolding json_of
planned-Fits current next at target evidence db p valid v got moved made =
    let (e, t, i) = transition-ok_args current.state next target evidence moved in
    subst (λ (q : Plan). Fits q db) made
      (record {
        logged = get-LoggedAt v db current valid got;
        proof = e;
        recorded = rw i;
        accepted = rw (t, i) at moved;
      })

-- A plan that `advance` makes on a valid database fits it.
pub plan-Fits :
    (clock : ℕ) (v : Value) (target : Object ProcessState) (evidence : Object TransitionEvidence)
    (expected : Value) (now : Option (Object DateTime)) (db : Db) (p : Plan)
    → IsValid db
    → plan clock v target evidence expected now db ≡ ok p
    → Fits p db
unfolding plan
plan-Fits clock v target evidence expected now db p valid h =
    let (current, got, h1) = bind_returns (get v db) _ h in
    let (n, _, h2) = bind_returns (expected_number expected) _ h1 in
    let (_, h3) = raise_if_passes _ _ _ _ h2 in
    let (next, moved, h4) =
      bind_returns (transition (instance_of current.state) target evidence) _ h3 in
    let (at, _, h5) = bind_returns (timestamp clock now) _ h4 in
    planned-Fits current next at target evidence db p valid v got moved (ok-injective h5)
