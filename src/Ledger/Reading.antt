-- ===== src/Ledger/Reading.antt =====
-- Reading the records of a ledger, and reopening it.
use agent00x.Prelude.{
  or_raise, Text, text, text_eq, member_text, Bool, true, false, ◌&&◌, ◌||◌, not, Option, none,
  some, List, [], ◌∷◌, Kind, Result, ok, err, raise_if, ◌>>=◌, ◌>>◌, if◌then◌else◌,
}
use agent00x.Digests.Shape.{is_digest}
use agent00x.Ledger.{Ledger, AttemptEvent, EventState, is_claimed, events_of, ensure_open}
use agent00x.Ledger.Opening.{validate_attempt_ids, same_attempts}
use agent00x.Ledger.Words.{outcomes, reasons, unknown_reasons}
use agent00x.Tables.{select}

pub data RecordState : Type 0 where
  pending : RecordState
  recorded : EventState → RecordState

pub record AttemptRecord : Type 0 where
  pub attempt_id : Text
  pub state : RecordState
  pub input_digest : Option Text
  pub result_digest : Option Text
  pub outcome : Option Text
  pub reason_code : Option Text

unfoldable pub absent : Option Text → Bool
absent none = true
absent (some _) = false

one_of : List Text → Option Text → Bool
unfolding member_text
one_of words none = false
one_of words (some w) = member_text w words

unfoldable pub digest_stored : Option Text → Bool
unfolding is_digest
digest_stored none = false
digest_stored (some s) = is_digest s

-- The columns fit the state of the event.
unfoldable pub columns_fit : EventState → AttemptEvent → Bool
unfolding absent one_of digest_stored
columns_fit EventState.claimed e =
    absent e.result_digest && (absent e.outcome && absent e.reason_code)
columns_fit EventState.completed e =
    digest_stored e.result_digest && (one_of outcomes e.outcome && one_of reasons e.reason_code)
columns_fit EventState.unknown e =
    (absent e.result_digest || digest_stored e.result_digest)
    && (absent e.outcome && one_of unknown_reasons e.reason_code)

unfoldable pub read_event : Text → List AttemptEvent → Result AttemptRecord
unfolding columns_fit is_digest
read_event attempt_id [] = ok record {
  attempt_id = attempt_id;
  state = pending;
  input_digest = none;
  result_digest = none;
  outcome = none;
  reason_code = none;
}
read_event attempt_id (e ∷ _) =
    if is_digest e.input_digest && columns_fit e.state e
    then ok record {
      attempt_id = attempt_id;
      state = recorded e.state;
      input_digest = some e.input_digest;
      result_digest = e.result_digest;
      outcome = e.outcome;
      reason_code = e.reason_code;
    }
    else err Kind.value_error []

-- `_read_record`
unfoldable pub read_record : Text → Ledger → Result AttemptRecord
unfolding read_event member_text select
read_record attempt_id ledger =
    if member_text attempt_id ledger.attempts
    then read_event attempt_id (events_of attempt_id ledger.events)
    else err Kind.value_error []

-- `SQLiteR5AttemptLedger.get`
unfoldable pub get_record : Text → Ledger → Result AttemptRecord
unfolding ensure_open read_record
get_record attempt_id ledger = do
  ensure_open ledger
  or_raise (read_record attempt_id ledger) Kind.ledger_error
      (text "R5 attempt ledger: record unavailable")

valid_claim : AttemptEvent → Bool
unfolding is_claimed is_digest columns_fit
valid_claim e = is_claimed e.state && (is_digest e.input_digest && columns_fit EventState.claimed e)

-- The events of one attempt, the newest first: none, a claim, or a claim and its end.
unfoldable pub valid_history : List AttemptEvent → Bool
unfolding valid_claim text_eq is_claimed columns_fit
valid_history [] = true
valid_history (c ∷ []) = valid_claim c
valid_history (f ∷ c ∷ []) =
    valid_claim c
    && (text_eq c.input_digest f.input_digest
        && (not (is_claimed f.state) && columns_fit f.state f))
valid_history (_ ∷ _ ∷ _ ∷ _) = false

unfoldable pub valid_histories : List Text → List AttemptEvent → Bool
unfolding valid_history select
valid_histories [] events = true
valid_histories (s ∷ ss) events = valid_history (events_of s events) && valid_histories ss events

-- `_validate_existing_schema` on the tables
unfoldable pub validate_existing : Ledger → Result (Unit {0})
unfolding validate_attempt_ids same_attempts valid_histories
validate_existing ledger = do
  validated ← validate_attempt_ids ledger.allowed_attempt_ids
  raise_if (not (same_attempts ledger.attempts validated)) Kind.value_error []
  raise_if (not (valid_histories validated ledger.events)) Kind.value_error []

-- `SQLiteR5AttemptLedger.open_existing`, on the tables of the file
unfoldable pub open_existing : Ledger → Result Ledger
unfolding validate_existing
open_existing ledger = do
  or_raise (validate_existing ledger) Kind.ledger_error
      (text "R5 attempt ledger: existing ledger rejected")
  ok record ledger { closed = false }
