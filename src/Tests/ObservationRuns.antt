-- ===== src/Tests/ObservationRuns.antt =====
-- src/app_contracts/validator.py and observation_store.py on concrete inputs.
use agent00x.Prelude.{ℕ, suc, Text, text, Bool, true, false, List, [], ◌∷◌, ok, ◌≡◌, refl, Outcome}
use agent00x.Digests.{sha256_digest}
use agent00x.Observation.AppendOnly.{appends, write_all, append_row-again}
use agent00x.Observation.Checks.{id_of, check_checkpoint, valid_event}
use agent00x.Observation.Dispatch.{
  run_gated_dispatch, persist, then_dispatch, dispatched, returned, refused,
}
use agent00x.Observation.Memory.{prepared_event, new_memory}
use agent00x.Observation.OneShot.{event_id_of, gate, start, gated, StartsOnce, Reach-StartsOnce}
use agent00x.Observation.Pairs.{
  is_stored, differs, digest_if_dict, prepared_pair, once_checks, admitted_once, with_checkpoint,
  with_intent, record_once,
}
use agent00x.Observation.Refinement.{Call, resolves, run_memory, run_sqlite, run_sqlite-run_memory}
use agent00x.Observation.Sqlite.{
  insert_row, next_cursor, SqliteStore, new_sqlite, append_row, stored_events, stored_checkpoints,
  store_row,
}
use agent00x.Tables.{find}
use agent00x.Tests.ActuatorRuns.{host}
use agent00x.Validator.Keywords.{number_of, entry_schema}
use agent00x.Validator.Schemas.{is_list, is_int, ordered, items_of, int_or_zero}
use agent00x.Values.{
  Value, bool, int, str, list, dict, pos, Fields, end, field, get, has, py_eq, is_str, text_of, nil,
  cons, ge_ℤ, is_bool, size, is_dict, fields_of,
}

abbrev re_search : Text → Text → Bool
re_search p t = true

abbrev pair : Text → Text → Fields → Fields
pair k v rest = field k (str v) rest

abbrev numbers : Value
numbers = dict (
    pair (text "type") (text "object") (
      field (text "additionalProperties") (bool false) (
        field (text "required") (list (cons (str (text "limits")) nil)) (
          field (text "properties")
            (dict (
              field (text "limits")
                (dict (
                  pair (text "type") (text "array") (
                    field (text "items")
                      (dict (
                        pair (text "type") (text "integer")
                          (field (text "minimum") (int (pos 1)) end)))
                      end)))
                end))
            end))))

abbrev limits : Value
limits = dict (field (text "limits") (list (cons (int (pos 3)) (cons (int (pos 7)) nil))) end)

abbrev event : Text → Text → Value
event id kind = dict (
    field (text "schema_version") (int (pos 1)) (
      pair (text "event_id") id (
        pair (text "event_type") kind (
          pair (text "process_id") (text "process-1") (
            pair (text "run_id") (text "run-1") (
              pair (text "branch_id") (text "branch-1") (
                pair (text "task_id") (text "task-1") (
                  pair (text "agent_id") (text "agent-1") (
                    field (text "sequence") (int (pos 0)) (
                      pair (text "occurred_at") (text "now") (
                        pair (text "recorded_at") (text "now") (
                          pair (text "classification") (text "public") (
                            pair (text "redaction_status") (text "complete")
                              (pair (text "invocation_id") (text "invocation-1") end))))))))))))))

abbrev first : Value
first = event (text "event-1") (text "agent_started")

abbrev intent : Value
intent = event (text "event-2") (text "tool_requested")

first_appended : (append_row host re_search first new_sqlite).0 ≡ ok 0
unfolding append_row new_sqlite text has get fields_of is_list is_int is_str is_dict is_bool text_of
    py_eq ge_ℤ number_of size ordered items_of int_or_zero entry_schema prepared_event sha256_digest
    store_row find insert_row next_cursor id_of
first_appended = refl

append_row-again_example :
    (append_row host re_search first (
      write_all host re_search
        (appends intent ∷ [])
        (append_row host re_search first new_sqlite).1)).0
    ≡ ok 0
append_row-again_example =
    append_row-again host re_search first new_sqlite 0 (appends intent ∷ []) first_appended

abbrev calls : List Call
calls = Call.appends first ∷ Call.appends intent ∷ resolves first ∷ []

run_sqlite-run_memory_example :
    ((run_sqlite host re_search calls new_sqlite).0
      ≡ (run_memory host re_search calls new_memory).0)
    × (stored_events (run_sqlite host re_search calls new_sqlite).1
        ≡ (run_memory host re_search calls new_memory).1.events.items)
    × (stored_checkpoints (run_sqlite host re_search calls new_sqlite).1
        ≡ (run_memory host re_search calls new_memory).1.checkpoints.items)
run_sqlite-run_memory_example = run_sqlite-run_memory host re_search calls

abbrev checkpoint : Value
checkpoint = dict (
    field (text "schema_version") (int (pos 1)) (
      pair (text "checkpoint_id") (text "checkpoint-1") (
        pair (text "kind") (text "tool_call") (
          pair (text "process_id") (text "process-1") (
            pair (text "run_id") (text "run-1") (
              pair (text "branch_id") (text "branch-1") (
                pair (text "agent_id") (text "agent-1") (
                  pair (text "trigger_event_id") (text "event-1") (
                    field (text "event_cursor") (int (pos 0)) (
                      pair (text "state_ref") (text "artifact://state") (
                        pair (text "completeness") (text "complete") (
                          pair (text "restore_mode") (text "none")
                            (pair (text "created_at") (text "now") end)))))))))))))

abbrev one_event : SqliteStore
one_event = record {
  event_rows =
      record {
        id = text "event-1";
        cursor = 0;
        content = fields_of first;
        digest = text "sha256:00";
      }
      ∷ [];
  checkpoint_rows = [];
}

abbrev quiet : ℕ → ℕ → Outcome ℕ (Unit {0})
quiet cursor e = (ok tt, e)

abbrev effect : ℕ → Outcome ℕ (Unit {0})
effect e = (ok tt, suc e)

-- The gate starts the effect, and refuses to start it again.
abbrev once : SqliteStore × (ℕ × ℕ)
once = (gate host re_search (text "event-2") checkpoint intent quiet effect (one_event, (0, 0))).1

abbrev twice : SqliteStore × (ℕ × ℕ)
twice = (gate host re_search (text "event-2") checkpoint intent quiet effect once).1

started : (once.1.1 ≡ 1) × (twice.1.1 ≡ 1)
unfolding run_gated_dispatch persist then_dispatch dispatched returned refused record_once
    admitted_once prepared_pair once_checks check_checkpoint with_checkpoint with_intent
    digest_if_dict valid_event stored_events is_stored differs text has get fields_of is_list is_int
    is_str is_dict is_bool text_of py_eq ge_ℤ number_of size ordered items_of int_or_zero
    entry_schema prepared_event sha256_digest find insert_row next_cursor id_of
started = (refl, refl)

intent_id : event_id_of intent ≡ text "event-2"
unfolding id_of text get text_of fields_of
intent_id = refl

Reach-StartsOnce_example : StartsOnce host re_search (text "event-2") twice.0 twice.1.1
Reach-StartsOnce_example = Reach-StartsOnce host re_search (text "event-2") (
    gated (gated (start {e = 0} refl) checkpoint intent quiet effect intent_id refl) checkpoint
      intent quiet effect intent_id refl)
