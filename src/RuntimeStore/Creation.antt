-- ===== src/RuntimeStore/Creation.antt =====
-- `create` adds a process at the start of its chain.
use agent00x.Prelude.{
  bind_returns, ◌∙◌, Option, Result, sym, [], suc, ℕ, Text, text_eq, text_eq_refl, text_eq_sound,
  ◌≡◌, refl, ◌⊎◌, inl, inr, none, some, ◌∷◌, ok, err, arith, Bool-cases, Option-cases, Kind, text,
}
use agent00x.RuntimeSchema.{
  get, timestamp, checked_id, DateTime, ProcessRecord, encoded, has_sequence, value_of, ProcessRow,
  Db, find_process, events_of,
}
use agent00x.RuntimeStore.{
  create_writes, Object, create, Value, already_exists, end, dict, received, insert_created,
  transaction,
}
use agent00x.RuntimeStore.History.{Chain, IsValid}
use agent00x.Tables.{find-cons, select-cons}

-- The database after `create`.
abbrev pub created_row : Text → ℕ → ProcessRow
created_row pid at = record {
  process_id = pid;
  state = value_of received;
  version = 0;
  updated_at = at;
}

abbrev pub created : Text → ℕ → Db → Db
created pid at db = record db {
  processes = created_row pid at ∷ db.processes;
  process_events =
      record {
        event_id = suc db.event_count;
        process_id = pid;
        sequence = 0;
        previous_state = none;
        state = value_of received;
        evidence_json = encoded (dict end);
        occurred_at = at;
      }
      ∷ db.process_events;
  event_count = suc db.event_count;
}

module _ (db : Db) (valid : IsValid db) (pid : Text) (at : ℕ) where
  no_events : find_process pid db.processes ≡ none → events_of pid db.process_events ≡ []
  no_events missing = rw missing at (valid.tracks pid)

  insert_created-new :
      find_process pid db.processes ≡ none → insert_created pid at db ≡ ok (created pid at db)
  unfolding insert_created has_sequence
  insert_created-new missing = ground (arith, missing, no_events missing)

  insert_created-taken :
      (row : ProcessRow)
      → find_process pid db.processes ≡ some row
      → insert_created pid at db ≡ err Kind.integrity_error (text "UNIQUE constraint failed")
  unfolding insert_created
  insert_created-taken row found = ground (arith, found)

  created-IsValid : find_process pid db.processes ≡ none → IsValid (created pid at db)
  created-IsValid missing = record {
    tracks = λ j. elim (Bool-cases (text_eq pid j)) [
      | inl e ↦ rw (← text_eq_sound _ _ e) (
          rw (find-cons, select-cons, text_eq_refl, no_events missing)
            (received, refl, Chain.start _ refl refl refl))
      | inr ne ↦ rw (find-cons, select-cons, ne) (valid.tracks j)
    ];
  }

already_exists-ok : (m : Result Db) {db : Db} → already_exists m ≡ ok db → m ≡ ok db
unfolding already_exists
already_exists-ok (ok d) h = h
already_exists-ok (err k m) h = absurd (never k m h)
  where
    never : (k : Kind) (m : Text) {db : Db} → already_exists (err k m) ≡ ok db → ⊥
    never k m h = ground arith

module _ (db : Db) (valid : IsValid db) where
  insert_created-ok :
      (pid : Text) (at : ℕ) (db' : Db)
      → insert_created pid at db ≡ ok db'
      → (find_process pid db.processes ≡ none) × (created pid at db ≡ db')
  insert_created-ok pid at db' h = elim (Option-cases (find_process pid db.processes)) [
    | inl missing ↦
        let e = insert_created-new db valid pid at missing in (missing, ok-injective (sym e ∙ h))
    | inr (row, found) ↦
        let e = insert_created-taken db valid pid at row found in absurd (ok≢err (sym h ∙ e))
  ]
    where
      ok-injective : {a b : Db} → ok a ≡ ok b → a ≡ b
      ok-injective h = cc

      ok≢err : {a : Db} {k : Kind} {m : Text} → ok a ≡ err k m → ⊥
      ok≢err h = cc

  transaction-cases :
      (m : Result Db) (rest : Db → Result ProcessRecord)
      → ((transaction m rest db).1 ≡ db)
        ⊎ ((db' : Db) × (m ≡ ok db') × ((transaction m rest db).1 ≡ db'))
  unfolding transaction
  transaction-cases (ok db') rest = inr (db', refl, refl)
  transaction-cases (err k m) rest = inl refl

  create_writes-ok :
      (clock : ℕ) (v : Value) (now : Option (Object DateTime)) (db' : Db)
      → create_writes clock v now db ≡ ok db'
      → (pid : Text) × (at : ℕ) × (already_exists (insert_created pid at db) ≡ ok db')
  unfolding create_writes
  create_writes-ok clock v now db' made =
      let (pid, _, h1) = bind_returns (checked_id v) _ made in
      let (at, _, h2) = bind_returns (timestamp clock now) _ h1 in (pid, at, h2)

  -- `create` adds a process that the database did not have, with its first event, or does nothing.
  pub create-cases :
      (clock : ℕ) (v : Value) (now : Option (Object DateTime))
      → ((create clock v now db).1 ≡ db)
        ⊎ ((pid : Text) × (at : ℕ) × (find_process pid db.processes ≡ none)
            × ((create clock v now db).1 ≡ created pid at db))
  unfolding create
  create-cases clock v now = elim (transaction-cases (create_writes clock v now db) (get v)) [
    | inl same ↦ inl same
    | inr (db', made, after) ↦
        let (pid, at, h2) = create_writes-ok clock v now db' made in
        let (missing, new) =
          insert_created-ok pid at db' (already_exists-ok (insert_created pid at db) h2) in
        inr (pid, at, missing, after ∙ sym new)
  ]

  pub create-IsValid :
      (clock : ℕ) (v : Value) (now : Option (Object DateTime)) → IsValid (create clock v now db).1
  create-IsValid clock v now = elim (create-cases clock v now) [
    | inl same ↦ rw same valid
    | inr (pid, at, missing, after) ↦ rw after (created-IsValid db valid pid at missing)
  ]
