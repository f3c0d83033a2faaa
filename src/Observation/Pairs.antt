-- ===== src/Observation/Pairs.antt =====
-- src/app_contracts/observation_store.py: the transactions of the SQLite journal that record a
-- checkpoint and an intent together. One that raises leaves the tables as they were.
use agent00x.Prelude.{
  ℕ, Text, text, text_eq, Bool, true, false, not, Option, none, some, [], Kind, Result, ok, err,
  raise_if, ◌>>=◌, ◌>>◌, if◌then◌else◌, Outcome,
}
use agent00x.Digests.{sha256_digest}
use agent00x.Host.{Host}
use agent00x.Observation.Checks.{valid_event, check_checkpoint, id_of}
use agent00x.Observation.Sqlite.{Row, row_id, next_cursor, insert_row, SqliteStore, stored_events}
use agent00x.Tables.{find}
use agent00x.Values.{Value, Fields, is_dict, fields_of}

-- What is computed before the transaction.
pub record Pair : Type 0 where
  pub intent : Fields
  pub intent_digest : Text
  pub checkpoint_digest : Text

-- `known is not None and known["digest"] != digest`
unfoldable pub differs : Option Row → Text → Bool
unfolding text_eq
differs none digest = false
differs (some r) digest = not (text_eq r.digest digest)

unfoldable pub is_stored : Option Row → Bool
is_stored none = false
is_stored (some _) = true

-- The insertion of a checkpoint that is not known.
unfoldable pub with_checkpoint : Fields → Text → SqliteStore → SqliteStore
with_checkpoint c digest s = elim (find row_id (id_of (text "checkpoint_id") c) s.checkpoint_rows) [
  | some _ ↦ s
  | none ↦ record s {
    checkpoint_rows = insert_row (id_of (text "checkpoint_id") c) c digest s.checkpoint_rows;
  }
]

-- The insertion of the intent, under the next cursor.
unfoldable pub with_intent : Fields → Text → SqliteStore → Outcome SqliteStore ℕ
with_intent d digest s = (
  ok (next_cursor s.event_rows),
  record s { event_rows = insert_row (id_of (text "event_id") d) d digest s.event_rows },
)

-- The intent of a pair: the cursor of the one that is known, or a new row.
unfoldable pub intent_cursor : Option Row → Fields → Text → SqliteStore → Outcome SqliteStore ℕ
intent_cursor (some r) d digest s = (ok r.cursor, s)
intent_cursor none d digest s = with_intent d digest s

module _ (host : Host) (re_search : Text → Text → Bool) where
  -- The digest of a checkpoint that is a dict, and `""` for any other value.
  unfoldable pub digest_if_dict : Value → Result Text
  digest_if_dict v = if is_dict v then sha256_digest host.sha256_hex v else ok []

  unfoldable pub prepared_pair : Value → Value → Result Pair
  unfolding valid_event digest_if_dict
  prepared_pair checkpoint intent = do
    d ← valid_event host re_search intent
    intent_digest ← sha256_digest host.sha256_hex intent
    checkpoint_digest ← digest_if_dict checkpoint
    ok record { intent = d; intent_digest = intent_digest; checkpoint_digest = checkpoint_digest }

  -- The tests of `record_checkpoint_and_intent` within its transaction.
  unfoldable pub pair_checks : Value → Pair → SqliteStore → Result (Unit {0})
  unfolding differs
  pair_checks checkpoint p s = do
    _ ← check_checkpoint host re_search (stored_events s) checkpoint
    raise_if
        (differs
          (find row_id (id_of (text "checkpoint_id") (fields_of checkpoint)) s.checkpoint_rows)
          p.checkpoint_digest)
        Kind.event_conflict (text "checkpoint id conflict")
    raise_if (differs (find row_id (id_of (text "event_id") p.intent) s.event_rows) p.intent_digest)
        Kind.event_conflict (text "event id conflict")

  unfoldable pub admitted_pair : Value → Value → SqliteStore → Result Pair
  unfolding prepared_pair pair_checks
  admitted_pair checkpoint intent s = do
    p ← prepared_pair checkpoint intent
    pair_checks checkpoint p s
    ok p

  -- `record_checkpoint_and_intent`
  unfoldable pub record_pair : Value → Value → SqliteStore → Outcome SqliteStore ℕ
  record_pair checkpoint intent s = elim (admitted_pair checkpoint intent s) [
    | err k m ↦ (err k m, s)
    | ok p ↦
        intent_cursor (find row_id (id_of (text "event_id") p.intent) s.event_rows) p.intent
          p.intent_digest (with_checkpoint (fields_of checkpoint) p.checkpoint_digest s)
  ]

  -- The tests of `record_checkpoint_and_intent_once` within its transaction.
  unfoldable pub once_checks : Value → Pair → SqliteStore → Result (Unit {0})
  unfolding differs
  once_checks checkpoint p s = do
    _ ← check_checkpoint host re_search (stored_events s) checkpoint
    raise_if (is_stored (find row_id (id_of (text "event_id") p.intent) s.event_rows))
        Kind.event_conflict (text "one-shot intent already recorded")
    raise_if
        (differs
          (find row_id (id_of (text "checkpoint_id") (fields_of checkpoint)) s.checkpoint_rows)
          p.checkpoint_digest)
        Kind.event_conflict (text "checkpoint id conflict")

  unfoldable pub admitted_once : Value → Value → SqliteStore → Result Pair
  unfolding prepared_pair once_checks
  admitted_once checkpoint intent s = do
    p ← prepared_pair checkpoint intent
    once_checks checkpoint p s
    ok p

  -- `record_checkpoint_and_intent_once`
  unfoldable pub record_once : Value → Value → SqliteStore → Outcome SqliteStore ℕ
  record_once checkpoint intent s = elim (admitted_once checkpoint intent s) [
    | err k m ↦ (err k m, s)
    | ok p ↦
        with_intent p.intent p.intent_digest
          (with_checkpoint (fields_of checkpoint) p.checkpoint_digest s)
  ]
