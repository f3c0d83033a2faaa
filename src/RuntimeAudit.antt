-- ===== src/RuntimeAudit.antt =====
-- src/app_contracts/runtime_store.py: the reading of the event log, and the audit log.
pub mod RoundTrip
use agent00x.Prelude.{
  ◌≡◌, ℕ, suc, Text, text, Bool, true, false, ◌&&◌, ◌||◌, not, Option, none, some, List, [], ◌∷◌,
  Kind, Result, ok, err, Outcome, raise_if, ◌>>=◌, ◌>>◌, if◌then◌else◌, ltb, leb, length,
}
use agent00x.RuntimeSchema.{
  StoredJson, encoded, garbage, ProcessEvent, AuditEvent, Db, events_of, timestamp, DateTime, get,
}
use agent00x.Tables.{select}
use agent00x.Values.{Value, str, list, tuple, Items, nil, cons, is_name, text_of}
use agent00x.Workflow.{Object}

-- `_decode_stored_json`
pub decode_stored_json : StoredJson → Text → Result Value
decode_stored_json (encoded v) m = ok v
decode_stored_json garbage m = err Kind.process_store m

-- `ORDER BY sequence`
insert_by_sequence : ProcessEvent → List ProcessEvent → List ProcessEvent
insert_by_sequence e [] = e ∷ []
insert_by_sequence e (f ∷ fs) =
    let rest = insert_by_sequence e fs in if leb e.sequence f.sequence then e ∷ f ∷ fs else f ∷ rest

unfoldable pub order_by_sequence : List ProcessEvent → List ProcessEvent
unfolding insert_by_sequence
order_by_sequence [] = []
order_by_sequence (e ∷ es) = insert_by_sequence e (order_by_sequence es)

-- A row of `events`, with its evidence decoded.
pub record EventView : Type 0 where
  pub event_id : ℕ
  pub sequence : ℕ
  pub previous_state : Option Text
  pub state : Text
  pub evidence : Value
  pub occurred_at : ℕ

decode_events : List ProcessEvent → Result (List EventView)
unfolding decode_stored_json
decode_events [] = ok []
decode_events (e ∷ es) = do
  evidence ← decode_stored_json e.evidence_json (text "runtime: stored event is corrupt")
  rest ← decode_events es
  ok (
      record {
        event_id = e.event_id;
        sequence = e.sequence;
        previous_state = e.previous_state;
        state = e.state;
        evidence = evidence;
        occurred_at = e.occurred_at;
      }
      ∷ rest)

-- `SQLiteProcessStore.events`
unfoldable pub events : Value → Db → Result (List EventView)
unfolding get order_by_sequence decode_events
events process_id db = do
  r ← get process_id db
  decode_events (order_by_sequence (events_of r.process_id db.process_events))

abbrev pub max_reason_code_length : ℕ
max_reason_code_length = 128

reason_code : Value → Bool
reason_code v = is_name v && leb (length (text_of v)) max_reason_code_length

all_reason_codes : Items → Bool
unfolding reason_code
all_reason_codes nil = true
all_reason_codes (cons v vs) = reason_code v && all_reason_codes vs

some_reason_codes : Items → Bool
unfolding all_reason_codes
some_reason_codes nil = false
some_reason_codes vs = all_reason_codes vs

-- `_validate_reason_codes`, as a test
unfoldable pub valid_reason_codes : Value → Bool
unfolding some_reason_codes
valid_reason_codes (list vs) = some_reason_codes vs
valid_reason_codes (tuple vs) = some_reason_codes vs
valid_reason_codes _ = false

-- `json.dumps` writes a tuple as an array.
unfoldable pub as_array : Value → Value
as_array (tuple vs) = list vs
as_array v = v

abbrev pub audit_rows_of : Text → List AuditEvent → List AuditEvent
audit_rows_of = select (λ (e : AuditEvent). e.process_id)

-- The row that `append_audit_event` inserts.
abbrev pub audit_row : Text → Value → Value → Value → Value → Value → ℕ → Db → AuditEvent
audit_row pid actor_id event_type input_digest result reason_codes at db = record {
  event_id = suc db.audit_count;
  process_id = pid;
  actor_id = text_of actor_id;
  event_type = text_of event_type;
  input_digest = text_of input_digest;
  result = text_of result;
  reason_codes_json = encoded (as_array reason_codes);
  occurred_at = at;
}

-- The tests of `append_audit_event` before it reads.
pub audit_checks : Value → Value → Value → Value → Value → Result (Unit {0})
unfolding valid_reason_codes
audit_checks actor_id event_type input_digest result reason_codes = do
  raise_if (not (valid_reason_codes reason_codes)) Kind.contract_validation
      (text "audit: reason code is invalid")
  raise_if
      (not (is_name actor_id && (is_name event_type && (is_name input_digest && is_name result))))
      Kind.contract_validation (text "audit: event field is invalid")

-- `SQLiteProcessStore.append_audit_event`; what it raises leaves the database as it was.
unfoldable pub append_audit_event :
    ℕ → Value → Value → Value → Value → Value → Value → Option (Object DateTime) → Db → Result Db
unfolding get audit_checks as_array
append_audit_event clock process_id actor_id event_type input_digest result reason_codes now db = do
  audit_checks actor_id event_type input_digest result reason_codes
  r ← get process_id db
  at ← timestamp clock now
  ok (record db {
    audit_events =
        audit_row r.process_id actor_id event_type input_digest result reason_codes at db
        ∷ db.audit_events;
    audit_count = suc db.audit_count;
  })

-- A row of `audit_events`, with its reason codes decoded.
pub record AuditView : Type 0 where
  pub event_id : ℕ
  pub actor_id : Text
  pub event_type : Text
  pub input_digest : Text
  pub result : Text
  pub reason_codes : Value
  pub occurred_at : ℕ

-- Rows are stored with growing `event_id`, the newest first: `ORDER BY event_id` turns them round.
pub decode_audit : List AuditEvent → List AuditView → Result (List AuditView)
unfolding decode_stored_json
decode_audit [] views = ok views
decode_audit (e ∷ es) views = do
  codes ← decode_stored_json e.reason_codes_json (text "runtime: stored audit event is corrupt")
  decode_audit es (
      record {
        event_id = e.event_id;
        actor_id = e.actor_id;
        event_type = e.event_type;
        input_digest = e.input_digest;
        result = e.result;
        reason_codes = codes;
        occurred_at = e.occurred_at;
      }
      ∷ views)

-- `SQLiteProcessStore.audit_events`
unfoldable pub audit_events : Value → Db → Result (List AuditView)
unfolding get decode_audit
audit_events process_id db = do
  r ← get process_id db
  decode_audit (audit_rows_of r.process_id db.audit_events) []
