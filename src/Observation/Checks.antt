-- ===== src/Observation/Checks.antt =====
-- src/app_contracts/observation_store.py: what both stores compute from the events in their order,
-- `check_checkpoint` and `check_result_causality`. The schemas make identifiers strings and cursors
-- natural numbers.
use agent00x.Prelude.{
  ℕ, suc, Text, text, text_eq, Bool, true, false, ◌||◌, not, Option, none, some, List, [], ◌∷◌,
  ◌++◌, Kind, Result, ok, err, raise_if, ◌>>=◌, ◌>>◌, if◌then◌else◌, leb, ◌==◌, length,
}
use agent00x.Host.{Host}
use agent00x.Observation.CheckpointSchema.{checkpoint_schema}
use agent00x.Observation.EventSchema.{event_schema}
use agent00x.Validator.{validate}
use agent00x.Values.{
  Value, int, dict, pos, Fields, get, py_eq, is_name, text_of, in_names, is_dict, fields_of,
}

-- `event["event_id"]`
unfoldable pub id_of : Text → Fields → Text
id_of key d = text_of (get d key)

-- The position of the first item with the identifier, counted from `n`.
unfoldable pub position_from : Text → Text → ℕ → List Fields → Option ℕ
unfolding id_of text_eq
position_from key id n [] = none
position_from key id n (d ∷ ds) =
    let rest = position_from key id (suc n) ds in if text_eq (id_of key d) id then some n else rest

-- The first item with the identifier.
unfoldable pub find_item : Text → Text → List Fields → Option Fields
unfolding id_of text_eq
find_item key id [] = none
find_item key id (d ∷ ds) =
    let rest = find_item key id ds in if text_eq (id_of key d) id then some d else rest

unfoldable pub checkpoint_error : Bool → Text → Result (Unit {0})
checkpoint_error t m = raise_if t Kind.contract_validation m

-- `for field in ("process_id", "run_id", "branch_id"): …`
unfoldable pub same_trigger : Fields → Fields → List Text → Result (Unit {0})
unfolding checkpoint_error
same_trigger trigger c [] = ok tt
same_trigger trigger c (k ∷ ks) = do
  checkpoint_error (not (py_eq (get trigger k) (get c k)))
      (text "checkpoint trigger " ++ (k ++ text " mismatch"))
  same_trigger trigger c ks

-- A cursor as a number.
unfoldable pub cursor_of : Value → ℕ
cursor_of (int (pos n)) = n
cursor_of _ = 0

unfoldable pub trigger_cursor : Fields → ℕ → Option Fields → Option ℕ → Result ℕ
unfolding same_trigger checkpoint_error cursor_of
trigger_cursor c count (some trigger) (some position) = do
  same_trigger trigger c (text "process_id" ∷ text "run_id" ∷ text "branch_id" ∷ [])
  checkpoint_error (leb count (cursor_of (get c (text "event_cursor"))))
      (text "checkpoint cursor is beyond journal end")
  checkpoint_error (not (cursor_of (get c (text "event_cursor")) == position))
      (text "checkpoint cursor does not match trigger position")
  ok (cursor_of (get c (text "event_cursor")))
trigger_cursor c count _ _ = err Kind.contract_validation (text "unknown trigger event")

-- `stored.get("event_type") in _INTENT_EVENT_TYPES`
unfoldable pub is_intent : Fields → Bool
unfolding in_names
is_intent d =
    in_names (get d (text "event_type")) (text "decision_proposed" ∷ text "tool_requested" ∷ [])

-- What the loop of `check_result_causality` has seen.
pub record Seen : Type 0 where
  pub preceding : List ℕ
  pub non_intent : Bool
  pub later_intent : Bool

-- `own_position is not None and position >= own_position`
unfoldable pub not_before : Option ℕ → ℕ → Bool
not_before none position = false
not_before (some own) position = leb own position

unfoldable pub see : Value → Text → Option ℕ → ℕ → Fields → Seen → Seen
unfolding is_intent not_before id_of text_eq
see invocation own_id own position d seen =
    if not (py_eq (get d (text "invocation_id")) invocation)
      || text_eq (id_of (text "event_id") d) own_id
    then seen
    else if not (is_intent d)
    then record seen { non_intent = true }
    else if not_before own position
    then record seen { later_intent = true }
    else record seen { preceding = seen.preceding ++ position ∷ [] }

-- The second loop, from the position `n`.
unfoldable pub see_all : Value → Text → Option ℕ → ℕ → List Fields → Seen → Seen
unfolding see
see_all invocation own_id own n [] seen = seen
see_all invocation own_id own n (d ∷ ds) seen =
    see_all invocation own_id own (suc n) ds (see invocation own_id own n d seen)

unfoldable pub causality_verdict : Seen → Result ℕ
causality_verdict seen = elim (seen.preceding) [
  | [] ↦
      if seen.later_intent
      then err Kind.contract_validation (text "invocation reference is not preceding")
      else if seen.non_intent
      then err Kind.contract_validation (text "invocation reference is not an intent")
      else err Kind.contract_validation (text "unknown invocation reference")
  | p ∷ ps ↦ only p ps
]
  where
    only : ℕ → List ℕ → Result ℕ
    only p [] = ok p
    only p (_ ∷ _) = err Kind.contract_validation (text "ambiguous invocation reference")

module _ (host : Host) (re_search : Text → Text → Bool) where
  -- `validate(event, EVENT_SCHEMA)`, and the entries of the event
  unfoldable pub valid_event : Value → Result Fields
  unfolding validate
  valid_event v = do validate host re_search v (dict event_schema) (text "$"); ok (fields_of v)

  -- The tests of `check_checkpoint` on the checkpoint alone.
  unfoldable pub valid_checkpoint : Value → Result Fields
  unfolding validate checkpoint_error
  valid_checkpoint v = do
    checkpoint_error (not (is_dict v)) (text "checkpoint is malformed")
    validate host re_search v (dict checkpoint_schema) (text "$")
    ok (fields_of v)

  -- `check_checkpoint`, on the events in their order
  unfoldable pub check_checkpoint : List Fields → Value → Result ℕ
  unfolding valid_checkpoint trigger_cursor find_item position_from
  check_checkpoint events v = do
    c ← valid_checkpoint v
    let trigger = text_of (get c (text "trigger_event_id"))
    trigger_cursor c (length events) (find_item (text "event_id") trigger events)
        (position_from (text "event_id") trigger 0 events)

  -- `check_result_causality`, on the events in their order
  unfoldable pub check_result_causality : List Fields → Value → Result ℕ
  unfolding valid_event see_all causality_verdict position_from
  check_result_causality events v = do
    d ← valid_event v
    let invocation = get d (text "invocation_id")
    checkpoint_error (not (is_name invocation)) (text "result has no invocation reference")
    let own_id = id_of (text "event_id") d
    causality_verdict (
        see_all invocation own_id (position_from (text "event_id") own_id 0 events) 0 events
          (record { preceding = []; non_intent = false; later_intent = false }))
