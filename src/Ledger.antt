-- ===== src/Ledger.antt =====
-- src/app_contracts/r5_attempt_ledger.py: the append-only ledger of Worker attempts. An attempt ID
-- and the columns are `str`; the file behind the ledger and SQLite's own failures are left out, and
-- `allowed_attempt_ids` holds the list that the column encodes.
pub mod Words
pub mod Opening
pub mod Reading
pub mod Soundness
pub mod NoRepeat
use agent00x.Prelude.{
  ℕ, zero, suc, ◌+◌, ◌-◌, ◌*◌, ◌≤◌, ◌<◌, Text, text, text_eq, member_text, starts_with, Bool, true,
  false, ◌&&◌, ◌||◌, not, Option, none, some, List, [], ◌∷◌, ◌++◌, Kind, Result, ok, err, raise_if,
  ◌>>=◌, ◌>>◌, if◌then◌else◌, ltb, leb, ◌==◌, length, ◌≡◌, ◌≢◌, refl, arith, is_empty_text,
  bind_returns, raise_if_passes, Outcome,
}
use agent00x.Digests.Shape.{is_digest}
use agent00x.Ledger.Words.{outcomes, reasons, unknown_reasons}
use agent00x.Tables.{select}
use agent00x.Values.{
  Value, null, bool, int, str, list, dict, pos, Fields, end, field, get, has, py_eq, is_name,
  is_str, text_of, as_dict, Items, nil, cons, ℤ, negsuc, ge_ℤ, in_names, is_dict, fields_of, item,
}

-- The states that the table admits.
pub data EventState : Type 0 where
  claimed completed unknown : EventState

unfoldable pub is_claimed : EventState → Bool
is_claimed EventState.claimed = true
is_claimed _ = false

-- A row of `attempt_events`
pub record AttemptEvent : Type 0 where
  pub attempt_id : Text
  pub state : EventState
  pub input_digest : Text
  pub result_digest : Option Text
  pub outcome : Option Text
  pub reason_code : Option Text

-- The tables, the newest event first, and whether the ledger was closed.
pub record Ledger : Type 0 where
  pub allowed_attempt_ids : List Text
  pub attempts : List Text
  pub events : List AttemptEvent
  pub closed : Bool

abbrev pub attempt_of : AttemptEvent → Text
attempt_of e = e.attempt_id

abbrev pub events_of : Text → List AttemptEvent → List AttemptEvent
events_of = select attempt_of

-- `_validate_digest`
unfoldable pub validate_digest : Value → Result Text
unfolding is_digest
validate_digest (str s) =
    if is_digest s then ok s else err Kind.ledger_error (text "R5 attempt ledger: digest rejected")
validate_digest _ = err Kind.ledger_error (text "R5 attempt ledger: digest rejected")

unfoldable pub ensure_open : Ledger → Result (Unit {0})
ensure_open ledger =
    raise_if ledger.closed Kind.ledger_error (text "R5 attempt ledger: ledger is closed")

-- An attempt that is scheduled and has no event.
unfoldable pub claimable : Text → Ledger → Bool
unfolding member_text select
claimable attempt_id ledger =
    member_text attempt_id ledger.attempts
    && elim (events_of attempt_id ledger.events) [ [] ↦ true | _ ∷ _ ↦ false ]

unfoldable pub append : AttemptEvent → Ledger → Ledger
append event ledger = record ledger { events = event ∷ ledger.events }

abbrev pub claim_event : Text → Text → AttemptEvent
claim_event attempt_id digest = record {
  attempt_id = attempt_id;
  state = EventState.claimed;
  input_digest = digest;
  result_digest = none;
  outcome = none;
  reason_code = none;
}

-- The tests of `claim`
unfoldable pub claim_checks : Text → Value → Ledger → Result Text
unfolding validate_digest ensure_open claimable
claim_checks attempt_id input_digest ledger = do
  digest ← validate_digest input_digest
  ensure_open ledger
  raise_if (not (claimable attempt_id ledger)) Kind.ledger_error
      (text "R5 attempt ledger: claim unavailable")
  ok digest

-- `SQLiteR5AttemptLedger.claim`
unfoldable pub claim : Text → Value → Ledger → Outcome Ledger (Unit {0})
unfolding claim_checks append
claim attempt_id input_digest ledger = elim (claim_checks attempt_id input_digest ledger) [
  | err k m ↦ (err k m, ledger)
  | ok digest ↦ (ok tt, append (claim_event attempt_id digest) ledger)
]

-- The event that `_transition` looks for: the last one, where it is a claim.
unfoldable pub open_claim : List AttemptEvent → Option AttemptEvent
unfolding is_claimed
open_claim [] = none
open_claim (last ∷ earlier) = if is_claimed last.state then some last else none

-- What `_transition` writes beside the input digest.
pub record Final : Type 0 where
  pub state : EventState
  pub result_digest : Option Text
  pub outcome : Option Text
  pub reason_code : Text

abbrev pub final_event : Text → AttemptEvent → Final → AttemptEvent
final_event attempt_id last final = record {
  attempt_id = attempt_id;
  state = final.state;
  input_digest = last.input_digest;
  result_digest = final.result_digest;
  outcome = final.outcome;
  reason_code = some final.reason_code;
}

unfoldable pub write_final : Text → Option AttemptEvent → Final → Ledger → Outcome Ledger (Unit {0})
unfolding append
write_final attempt_id none final ledger =
    (err Kind.ledger_error (text "R5 attempt ledger: transition unavailable"), ledger)
write_final attempt_id (some last) final ledger =
    (ok tt, append (final_event attempt_id last final) ledger)

-- `_transition`
unfoldable pub transition : Text → Final → Ledger → Outcome Ledger (Unit {0})
unfolding ensure_open open_claim select write_final
transition attempt_id final ledger = elim (ensure_open ledger) [
  | err k m ↦ (err k m, ledger)
  | ok _ ↦ write_final attempt_id (open_claim (events_of attempt_id ledger.events)) final ledger
]

-- The tests of `complete`
unfoldable pub completed_final : Value → Value → Value → Result Final
unfolding validate_digest in_names text_of
completed_final result_digest outcome reason_code = do
  digest ← validate_digest result_digest
  raise_if (not (in_names outcome outcomes) || not (in_names reason_code reasons)) Kind.ledger_error
      (text "R5 attempt ledger: result rejected")
  ok record {
    state = EventState.completed;
    result_digest = some digest;
    outcome = some (text_of outcome);
    reason_code = text_of reason_code;
  }

unfoldable pub optional_digest : Value → Result (Option Text)
unfolding validate_digest
optional_digest null = ok none
optional_digest v = do digest ← validate_digest v; ok (some digest)

-- The tests of `mark_unknown`
unfoldable pub unknown_final : Value → Value → Result Final
unfolding optional_digest in_names text_of
unknown_final reason_code result_digest = do
  raise_if (not (in_names reason_code unknown_reasons)) Kind.ledger_error
      (text "R5 attempt ledger: result rejected")
  digest ← optional_digest result_digest
  ok record {
    state = EventState.unknown;
    result_digest = digest;
    outcome = none;
    reason_code = text_of reason_code;
  }

unfoldable pub finish : Text → Result Final → Ledger → Outcome Ledger (Unit {0})
unfolding transition
finish attempt_id (err k m) ledger = (err k m, ledger)
finish attempt_id (ok final) ledger = transition attempt_id final ledger

-- `SQLiteR5AttemptLedger.complete`
unfoldable pub complete : Text → Value → Value → Value → Ledger → Outcome Ledger (Unit {0})
unfolding completed_final finish
complete attempt_id result_digest outcome reason_code =
    finish attempt_id (completed_final result_digest outcome reason_code)

-- `SQLiteR5AttemptLedger.mark_unknown`
unfoldable pub mark_unknown : Text → Value → Value → Ledger → Outcome Ledger (Unit {0})
unfolding unknown_final finish
mark_unknown attempt_id reason_code result_digest =
    finish attempt_id (unknown_final reason_code result_digest)

-- `SQLiteR5AttemptLedger.close`
unfoldable pub close : Ledger → Ledger
close ledger = record ledger { closed = true }
