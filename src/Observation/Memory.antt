-- ===== src/Observation/Memory.antt =====
-- src/app_contracts/observation_store.py: `ObservationStore`, the journal in memory.
use agent00x.Prelude.{
  ℕ, Text, text, text_eq, Bool, Option, none, some, List, [], ◌∷◌, ◌++◌, Kind, Result, ok, err,
  ◌>>=◌, if◌then◌else◌, length, Outcome,
}
use agent00x.Digests.{sha256_digest}
use agent00x.Host.{Host}
use agent00x.Observation.Checks.{valid_event, check_checkpoint, id_of, position_from}
use agent00x.Values.{Value, Fields, fields_of}

-- A list of records with the dict of their digests, the last entered first.
pub record Log : Type 0 where
  pub items : List Fields
  pub digests : List (Text × Text)

-- `digests.get(id)`
unfoldable pub known_digest : Text → List (Text × Text) → Option Text
unfolding text_eq
known_digest id [] = none
known_digest id ((j, d) ∷ ds) = if text_eq j id then some d else known_digest id ds

unfoldable pub found_or_raise : Text → Option ℕ → Result ℕ
found_or_raise id none = err Kind.key_error id
found_or_raise id (some n) = ok n

-- `_position`, `_checkpoint_position`
unfoldable pub position : Text → Text → List Fields → Result ℕ
unfolding position_from found_or_raise
position key id items = found_or_raise id (position_from key id 0 items)

-- The end of `append` and of `record_checkpoint`.
unfoldable pub enter : Text → Text → Fields → Text → Log → Outcome Log ℕ
enter key conflict d digest log = elim (known_digest (id_of key d) log.digests) [
  | none ↦ (
    ok (length log.items),
    record { items = log.items ++ d ∷ []; digests = (id_of key d, digest) ∷ log.digests },
  )
  | some known ↦
      if text_eq known digest
      then (position key (id_of key d) log.items, log)
      else (err Kind.event_conflict conflict, log)
]

pub record MemoryStore : Type 0 where
  pub events : Log
  pub checkpoints : Log

-- `__init__`
unfoldable pub new_memory : MemoryStore
new_memory = record {
  events = record { items = []; digests = [] };
  checkpoints = record { items = []; digests = [] };
}

module _ (host : Host) (re_search : Text → Text → Bool) where
  -- A validated event with its digest.
  unfoldable pub prepared_event : Value → Result (Fields × Text)
  unfolding valid_event
  prepared_event v = do
    d ← valid_event host re_search v
    digest ← sha256_digest host.sha256_hex v
    ok (d, digest)

  -- A checkpoint that the events bear out, with its digest.
  unfoldable pub prepared_checkpoint : List Fields → Value → Result (Fields × Text)
  unfolding check_checkpoint
  prepared_checkpoint events v = do
    _ ← check_checkpoint host re_search events v
    digest ← sha256_digest host.sha256_hex v
    ok (fields_of v, digest)

  -- `append`
  unfoldable pub append : Value → MemoryStore → Outcome MemoryStore ℕ
  append v store = elim (prepared_event v) [
    | err k m ↦ (err k m, store)
    | ok (d, digest) ↦
        let (result, log) =
          enter (text "event_id") (text "event id conflict") d digest store.events in
        (result, record store { events = log })
  ]

  -- `record_checkpoint`
  unfoldable pub record_checkpoint : Value → MemoryStore → Outcome MemoryStore ℕ
  record_checkpoint v store = elim (prepared_checkpoint store.events.items v) [
    | err k m ↦ (err k m, store)
    | ok (d, digest) ↦
        let (result, log) =
          enter (text "checkpoint_id") (text "checkpoint id conflict") d digest store.checkpoints in
        (result, record store { checkpoints = log })
  ]

  append_after : Value → Outcome MemoryStore ℕ → Outcome MemoryStore ℕ
  append_after intent (err k m, s) = (err k m, s)
  append_after intent (ok _, s) = append intent s

  -- `record_checkpoint_and_intent_once`: the lock is held for the whole of the call
  unfoldable pub record_once_in_memory : Value → Value → MemoryStore → Outcome MemoryStore ℕ
  unfolding valid_event known_digest append_after id_of
  record_once_in_memory checkpoint intent store = elim (valid_event host re_search intent) [
    | err k m ↦ (err k m, store)
    | ok d ↦ elim (known_digest (id_of (text "event_id") d) store.events.digests) [
      | some _ ↦ (err Kind.event_conflict (text "one-shot intent already recorded"), store)
      | none ↦ append_after intent (record_checkpoint checkpoint store)
    ]
  ]
