-- ===== src/Observation/Sqlite.antt =====
-- src/app_contracts/observation_store.py: `SQLiteObservationStore`. A row keeps the record that its
-- JSON column encodes; tables are lists of rows, the newest first.
use agent00x.Prelude.{
  ℕ, ◌+◌, Text, text, text_eq, Bool, none, some, List, [], ◌∷◌, Kind, ok, err, if◌then◌else◌, leb,
  Outcome,
}
use agent00x.Host.{Host}
use agent00x.Observation.Checks.{id_of}
use agent00x.Observation.Memory.{prepared_event, prepared_checkpoint}
use agent00x.Tables.{find}
use agent00x.Values.{Value, Fields}

pub record Row : Type 0 where
  pub id : Text
  pub cursor : ℕ
  pub content : Fields
  pub digest : Text

abbrev pub row_id : Row → Text
row_id r = r.id

-- `SELECT … ORDER BY cursor`
unfoldable pub insert_by_cursor : Row → List Row → List Row
insert_by_cursor r [] = r ∷ []
insert_by_cursor r (x ∷ xs) =
    let rest = insert_by_cursor r xs in if leb r.cursor x.cursor then r ∷ x ∷ xs else x ∷ rest

unfoldable pub by_cursor : List Row → List Row
unfolding insert_by_cursor
by_cursor [] = []
by_cursor (r ∷ rs) = insert_by_cursor r (by_cursor rs)

unfoldable pub contents : List Row → List Fields
contents [] = []
contents (r ∷ rs) = r.content ∷ contents rs

-- `SELECT COALESCE(MAX(cursor) + 1, 0)`
unfoldable pub next_cursor : List Row → ℕ
next_cursor [] = 0
next_cursor (r ∷ rs) =
    let rest = next_cursor rs in if leb (r.cursor + 1) rest then rest else r.cursor + 1

-- `INSERT` of a record under the next cursor
unfoldable pub insert_row : Text → Fields → Text → List Row → List Row
unfolding next_cursor
insert_row id d digest rows =
    record { id = id; cursor = next_cursor rows; content = d; digest = digest } ∷ rows

-- The transaction of `append` and of `record_checkpoint`.
unfoldable pub store_row : Text → Text → Fields → Text → List Row → Outcome (List Row) ℕ
store_row conflict id d digest rows = elim (find row_id id rows) [
  | none ↦ (ok (next_cursor rows), insert_row id d digest rows)
  | some known ↦
      if text_eq known.digest digest
      then (ok known.cursor, rows)
      else (err Kind.event_conflict conflict, rows)
]

pub record SqliteStore : Type 0 where
  pub event_rows : List Row
  pub checkpoint_rows : List Row

-- A new database.
unfoldable pub new_sqlite : SqliteStore
new_sqlite = record { event_rows = []; checkpoint_rows = [] }

-- `events` and `checkpoints`
unfoldable pub stored_events : SqliteStore → List Fields
unfolding contents by_cursor
stored_events store = contents (by_cursor store.event_rows)

unfoldable pub stored_checkpoints : SqliteStore → List Fields
unfolding contents by_cursor
stored_checkpoints store = contents (by_cursor store.checkpoint_rows)

module _ (host : Host) (re_search : Text → Text → Bool) where
  -- `append`
  unfoldable pub append_row : Value → SqliteStore → Outcome SqliteStore ℕ
  append_row v store = elim (prepared_event host re_search v) [
    | err k m ↦ (err k m, store)
    | ok (d, digest) ↦
        let (result, rows) =
          store_row (text "event id conflict") (id_of (text "event_id") d) d digest
            store.event_rows in
        (result, record store { event_rows = rows })
  ]

  -- `record_checkpoint`
  unfoldable pub record_checkpoint_row : Value → SqliteStore → Outcome SqliteStore ℕ
  record_checkpoint_row v store =
      elim (prepared_checkpoint host re_search (stored_events store) v) [
        | err k m ↦ (err k m, store)
        | ok (d, digest) ↦
            let (result, rows) =
              store_row (text "checkpoint id conflict") (id_of (text "checkpoint_id") d) d digest
                store.checkpoint_rows in
            (result, record store { checkpoint_rows = rows })
      ]
