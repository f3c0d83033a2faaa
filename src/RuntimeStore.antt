-- ===== src/RuntimeStore.antt =====
-- src/app_contracts/runtime_store.py: the methods of `SQLiteProcessStore`. A transaction that raises
-- leaves the database as it was. `advance` reads, and then writes in a transaction of its own, so it
-- is `commit_plan` after `plan`; another connection may write between the two.
pub mod History
pub mod Invariant
pub mod Creation
pub mod Concurrency
pub mod Reads
pub mod Promises
use agent00x.Prelude.{
  ℕ, suc, Text, text, Bool, true, false, ◌&&◌, ◌||◌, not, Option, none, some, List, [], ◌∷◌, Kind,
  Result, ok, err, Outcome, raise_if, ◌>>=◌, ◌>>◌, if◌then◌else◌, ltb, leb, ◌==◌, length,
}
use agent00x.RuntimeSchema.{
  value_of, DateTime, StoredJson, encoded, garbage, ProcessRow, ProcessEvent, AuditEvent, Db,
  ProcessRecord, find_process, events_of, timestamp, insert_event, insert_process, checked_id, get,
}
use agent00x.Tables.{replace}
use agent00x.Values.{
  Value, bool, int, str, list, tuple, dict, pos, negsuc, Fields, end, field, Items, nil, cons,
  is_name, text_of,
}
use agent00x.Workflow.{
  ProcessState, received, TransitionEvidence, Object, instance_of, foreign, transition,
}

-- `with self._connection: …`: the writes take effect together or not at all.
transaction : {A : Type 0} → Result Db → (Db → Result A) → Db → Outcome Db A
transaction (ok db') rest db = (rest db', db')
transaction (err k m) rest db = (err k m, db)

-- `except sqlite3.IntegrityError`
already_exists : Result Db → Result Db
already_exists (ok db) = ok db
already_exists (err Kind.integrity_error m) = err Kind.process_store (text "process already exists")
already_exists (err k m) = err k m

-- The two inserts of `create`.
pub insert_created : Text → ℕ → Db → Result Db
unfolding insert_process insert_event value_of
insert_created pid at db = do
  db' ←
      insert_process
        (record { process_id = pid; state = value_of received; version = 0; updated_at = at }) db
  insert_event pid 0 none (value_of received) (encoded (dict end)) at db'

-- What `create` writes, after its tests.
pub create_writes : ℕ → Value → Option (Object DateTime) → Db → Result Db
unfolding insert_created already_exists
create_writes clock process_id now db = do
  pid ← checked_id process_id
  at ← timestamp clock now
  already_exists (insert_created pid at db)

-- `SQLiteProcessStore.create`
unfoldable pub create : ℕ → Value → Option (Object DateTime) → Db → Outcome Db ProcessRecord
unfolding create_writes transaction get
create clock process_id now db =
    transaction (create_writes clock process_id now db) (get process_id) db

-- `evidence.__dict__` with its keys sorted, as `json.dumps` writes it
unfoldable pub evidence_dict : TransitionEvidence → Value
evidence_dict e = dict (
    field (text "approval_valid") e.approval_valid (
      field (text "artifact_digest") e.artifact_digest (
        field (text "contract_complete") e.contract_complete (
          field (text "policy_allowed") e.policy_allowed (
            field (text "postcondition_verified") e.postcondition_verified (
              field (text "receipt_present") e.receipt_present (
                field (text "staged_digest") e.staged_digest
                  (field (text "verification_passed") e.verification_passed end))))))))

-- `transition` has refused a foreign object before it is dumped.
json_of : Object TransitionEvidence → StoredJson
unfolding evidence_dict
json_of (instance_of e) = encoded (evidence_dict e)
json_of foreign = garbage

-- The tests of `expected_version`.
expected_number : Value → Result ℕ
expected_number (int (pos n)) = ok n
expected_number _ = err Kind.version_conflict (text "expected version is invalid")

-- What `advance` has computed when it opens its transaction.
pub record Plan : Type 0 where
  pub current : ProcessRecord
  pub next_state : ProcessState
  pub evidence_json : StoredJson
  pub at : ℕ

unfoldable pub plan :
    ℕ
    → Value
    → Object ProcessState
    → Object TransitionEvidence
    → Value
    → Option (Object DateTime)
    → Db
    → Result Plan
unfolding get expected_number json_of transition
plan clock process_id target evidence expected_version now db = do
  current ← get process_id db
  expected ← expected_number expected_version
  raise_if (not (current.version == expected)) Kind.version_conflict (text "version conflict")
  next_state ← transition (instance_of current.state) target evidence
  at ← timestamp clock now
  ok (record {
    current = current;
    next_state = next_state;
    evidence_json = json_of evidence;
    at = at;
  })

-- `UPDATE processes … WHERE process_id = ? AND version = ?` changes a row, or none.
update_process : Plan → Db → Option ProcessRow → Result Db
unfolding replace value_of
update_process p db none = err Kind.version_conflict (text "concurrent update")
update_process p db (some row) =
    if row.version == p.current.version
    then ok (record db {
      processes =
          replace (λ (r : ProcessRow). r.process_id) p.current.process_id
            (record row {
              state = value_of p.next_state;
              version = suc p.current.version;
              updated_at = p.at;
            })
            db.processes;
    })
    else err Kind.version_conflict (text "concurrent update")

pub write_plan : Plan → Db → Result Db
unfolding update_process insert_event
write_plan p db = do
  db' ← update_process p db (find_process p.current.process_id db.processes)
  insert_event p.current.process_id (suc p.current.version) (some (value_of p.current.state))
      (value_of p.next_state) p.evidence_json p.at db'

unfoldable pub commit_plan : Plan → Db → Outcome Db ProcessRecord
unfolding write_plan transaction get
commit_plan p db = transaction (write_plan p db) (get (str p.current.process_id)) db

commit_planned : Result Plan → Db → Outcome Db ProcessRecord
unfolding commit_plan
commit_planned (ok p) db = commit_plan p db
commit_planned (err k m) db = (err k m, db)

-- `SQLiteProcessStore.advance`, where no other connection writes
unfoldable pub advance :
    ℕ
    → Value
    → Object ProcessState
    → Object TransitionEvidence
    → Value
    → Option (Object DateTime)
    → Db
    → Outcome Db ProcessRecord
unfolding plan commit_planned
advance clock process_id target evidence expected_version now db =
    commit_planned (plan clock process_id target evidence expected_version now db) db
