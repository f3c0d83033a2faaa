-- ===== src/RuntimeSchema.antt =====
-- src/app_contracts/runtime_store.py: the tables of the SQLite process store, their constraints, and
-- the reads and writes of single rows.
use agent00x.Prelude.{
  text_eq, is_empty_text, ℕ, suc, Text, text, Bool, false, ◌||◌, Option, none, some, List, [], ◌∷◌,
  Kind, Result, ok, err, ◌>>=◌, if◌then◌else◌, ◌==◌,
}
use agent00x.Tables.{find, select}
use agent00x.Values.{Value, str}
use agent00x.Workflow.{
  ProcessState, received, specified, authorized, executing, verifying, staged, waiting_approval,
  applying, completed, waiting_input, quarantined, rejected, failed, reconciliation_required,
  cancelled, Object, instance_of, foreign,
}
pub use agent00x.Clock.{DateTime}

-- `state.value`
unfoldable pub value_of : ProcessState → Text
value_of received = text "received"
value_of specified = text "specified"
value_of authorized = text "authorized"
value_of executing = text "executing"
value_of verifying = text "verifying"
value_of staged = text "staged"
value_of waiting_approval = text "waiting_approval"
value_of applying = text "applying"
value_of completed = text "completed"
value_of waiting_input = text "waiting_input"
value_of quarantined = text "quarantined"
value_of rejected = text "rejected"
value_of failed = text "failed"
value_of reconciliation_required = text "reconciliation_required"
value_of cancelled = text "cancelled"

abbrev all_states : List ProcessState
all_states =
    received ∷ specified ∷ authorized ∷ executing ∷ verifying ∷ staged ∷ waiting_approval ∷ applying
    ∷ completed ∷ waiting_input ∷ quarantined ∷ rejected ∷ failed ∷ reconciliation_required
    ∷ cancelled ∷ []

first_with_value : Text → List ProcessState → Option ProcessState
unfolding value_of text_eq
first_with_value t [] = none
first_with_value t (s ∷ ss) = if text_eq (value_of s) t then some s else first_with_value t ss

-- `ProcessState(text)`
unfoldable pub parse_state : Text → Option ProcessState
unfolding first_with_value
parse_state t = first_with_value t all_states

-- A TEXT column that holds JSON: what it encodes, or text that is no JSON.
pub data StoredJson : Type 0 where
  encoded : Value → StoredJson
  garbage : StoredJson

-- `updated_at` and `occurred_at` are the instants that the ISO texts stand for.
pub record ProcessRow : Type 0 where
  pub process_id : Text
  pub state : Text
  pub version : ℕ
  pub updated_at : ℕ

pub record ProcessEvent : Type 0 where
  pub event_id : ℕ
  pub process_id : Text
  pub sequence : ℕ
  pub previous_state : Option Text
  pub state : Text
  pub evidence_json : StoredJson
  pub occurred_at : ℕ

pub record AuditEvent : Type 0 where
  pub event_id : ℕ
  pub process_id : Text
  pub actor_id : Text
  pub event_type : Text
  pub input_digest : Text
  pub result : Text
  pub reason_codes_json : StoredJson
  pub occurred_at : ℕ

-- The last `AUTOINCREMENT` numbers are `event_count` and `audit_count`.
pub record Db : Type 0 where
  pub processes : List ProcessRow
  pub process_events : List ProcessEvent
  pub audit_events : List AuditEvent
  pub event_count : ℕ
  pub audit_count : ℕ

abbrev pub empty_db : Db
empty_db = record {
  processes = [];
  process_events = [];
  audit_events = [];
  event_count = 0;
  audit_count = 0;
}

pub record ProcessRecord : Type 0 where
  pub process_id : Text
  pub state : ProcessState
  pub version : ℕ
  pub updated_at : ℕ

abbrev pub find_process : Text → List ProcessRow → Option ProcessRow
find_process = find (λ (r : ProcessRow). r.process_id)

abbrev pub events_of : Text → List ProcessEvent → List ProcessEvent
events_of = select (λ (e : ProcessEvent). e.process_id)

-- `_timestamp(value)`; `none` is the clock, which reads `clock`.
unfoldable pub timestamp : ℕ → Option (Object DateTime) → Result ℕ
timestamp clock none = ok clock
timestamp clock (some foreign) =
    err Kind.contract_validation (text "runtime: timestamp must be timezone-aware")
timestamp clock (some (instance_of t)) =
    if t.aware
    then ok t.instant
    else err Kind.contract_validation (text "runtime: timestamp must be timezone-aware")

unfoldable pub has_sequence : ℕ → List ProcessEvent → Bool
has_sequence n [] = false
has_sequence n (e ∷ es) = e.sequence == n || has_sequence n es

-- `INSERT INTO process_events`, with `UNIQUE(process_id, sequence)`
unfoldable pub insert_event : Text → ℕ → Option Text → Text → StoredJson → ℕ → Db → Result Db
unfolding has_sequence
insert_event pid seq previous state evidence at db =
    if has_sequence seq (events_of pid db.process_events)
    then err Kind.integrity_error (text "UNIQUE constraint failed")
    else ok (record db {
      process_events =
          record {
            event_id = suc db.event_count;
            process_id = pid;
            sequence = seq;
            previous_state = previous;
            state = state;
            evidence_json = evidence;
            occurred_at = at;
          }
          ∷ db.process_events;
      event_count = suc db.event_count;
    })

-- `INSERT INTO processes`, with `process_id` as primary key
unfoldable pub insert_process : ProcessRow → Db → Result Db
unfolding find
insert_process row db = elim (find_process row.process_id db.processes) [
  | none ↦ ok (record db { processes = row ∷ db.processes })
  | some _ ↦ err Kind.integrity_error (text "UNIQUE constraint failed")
]

unfoldable pub checked_id : Value → Result Text
checked_id (str s) =
    if is_empty_text s
    then err Kind.contract_validation (text "runtime: process ID is invalid")
    else ok s
checked_id _ = err Kind.contract_validation (text "runtime: process ID is invalid")

read_state : ProcessRow → Result ProcessRecord
unfolding parse_state
read_state row = elim (parse_state row.state) [
  | none ↦ err Kind.process_store (text "runtime: stored state is corrupt")
  | some s ↦ ok (record {
    process_id = row.process_id;
    state = s;
    version = row.version;
    updated_at = row.updated_at;
  })
]

unfoldable pub read_row : Option ProcessRow → Result ProcessRecord
unfolding read_state
read_row none = err Kind.process_not_found (text "process not found")
read_row (some row) = read_state row

-- `SQLiteProcessStore.get`
unfoldable pub get : Value → Db → Result ProcessRecord
unfolding checked_id read_row
get process_id db = do pid ← checked_id process_id; read_row (find_process pid db.processes)
