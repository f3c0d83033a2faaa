-- ===== src/RuntimeStore/Invariant.antt =====
-- `create` and `advance` keep the rows of the process store at the ends of their chains.
use agent00x.Prelude.{
  ==_iff, Text, text_eq, text_eq_iff, text_eq_refl, text_eq_sound, ◌≡◌, refl, ◌≢◌, ◌⊎◌, inl, inr,
  false, none, some, ◌∷◌, ok, err, arith, Bool-cases, Option-cases, Kind, ◌==◌, text,
}
use agent00x.RuntimeSchema.{ProcessRow, Db, find_process, events_of, empty_db}
use agent00x.RuntimeStore.{transaction, Plan, write_plan, commit_plan}
use agent00x.RuntimeStore.History.{
  Chain, Tracks, IsValid, Fits, event_of_plan, row_of_plan, advanced, write_plan-current,
  Chain-LoggedAt-eq,
}
use agent00x.Tables.{select, find, find-key, find-replace_self, find-replace_ne, select-cons}

pub empty_db-IsValid : IsValid empty_db
unfolding find select
empty_db-IsValid = record { tracks = λ pid. refl }

module _ (p : Plan) (db : Db) (valid : IsValid db) (fits : Fits p db) where
  -- The chain of the plan's process, one event longer.
  longer :
      (row : ProcessRow)
      → find_process p.current.process_id db.processes ≡ some row
      → row.version ≡ p.current.version
      → Tracks
          (some (row_of_plan p row))
          (event_of_plan p db ∷ events_of p.current.process_id db.process_events)
  longer row found same =
      let tracked : Tracks (some row) (events_of p.current.process_id db.process_events) =
        rw found at (valid.tracks p.current.process_id) in
      let chain : Chain (events_of p.current.process_id db.process_events) p.current.version
          tracked.0 =
        rw same at tracked.2 in
      let state : p.current.state ≡ tracked.0 =
        Chain-LoggedAt-eq chain p.current.state fits.logged in
      (
        p.next_state,
        refl,
        Chain.more (rw (← state) at chain) (event_of_plan p db) p.next_state fits.proof refl refl
            refl fits.recorded fits.accepted,
      )

  advanced-IsValid :
      (row : ProcessRow)
      → find_process p.current.process_id db.processes ≡ some row
      → row.version ≡ p.current.version
      → IsValid (advanced p row db)
  advanced-IsValid row found same =
      let own : row.process_id ≡ p.current.process_id =
        find-key (λ (r : ProcessRow). r.process_id) _ db.processes row found in
      record {
        tracks = λ pid. elim (Bool-cases (text_eq p.current.process_id pid)) [
          | inl e ↦ rw (← text_eq_sound _ _ e) (
              rw
                (
                  find-replace_self _ _ (row_of_plan p row) row _ own found,
                  select-cons,
                  text_eq_refl,
                )
                (longer row found same))
          | inr ne ↦
              rw
                (
                  find-replace_ne _ p.current.process_id pid (row_of_plan p row) db.processes own
                      (λ q. text_ne ne q),
                  select-cons,
                  ne,
                )
                (valid.tracks pid)
        ];
      }
    where
      text_ne : {s t : Text} → text_eq s t ≡ false → s ≢ t
      text_ne {s} {t} h q = ground (arith, text_eq_iff s t)

  write_plan-stale :
      (row : ProcessRow)
      → find_process p.current.process_id db.processes ≡ some row
      → row.version ≢ p.current.version
      → write_plan p db ≡ err Kind.version_conflict (text "concurrent update")
  unfolding write_plan
  write_plan-stale row found old = ground (arith, found)

  write_plan-missing :
      find_process p.current.process_id db.processes ≡ none
      → write_plan p db ≡ err Kind.version_conflict (text "concurrent update")
  unfolding write_plan
  write_plan-missing found = ground (arith, found)

  -- A fitting plan is written whole, at the version that it read, or refused with no effect.
  pub commit_plan-cases :
      ((row : ProcessRow) × (find_process p.current.process_id db.processes ≡ some row)
        × (row.version ≡ p.current.version)
        × (write_plan p db ≡ ok (advanced p row db))
        × ((commit_plan p db).1 ≡ advanced p row db))
      ⊎ (commit_plan p db ≡ (err Kind.version_conflict (text "concurrent update"), db))
  unfolding commit_plan
  commit_plan-cases = elim (Option-cases (find_process p.current.process_id db.processes)) [
    | inl missing ↦ inr (rw (write_plan-missing missing, transaction))
    | inr (row, found) ↦ elim (Bool-cases (row.version == p.current.version)) [
      | inl same ↦
          let w = write_plan-current p db valid fits row found ((==_iff _ _).0 same) in
          inl (row, found, (==_iff _ _).0 same, w, rw (w, transaction))
      | inr old ↦ inr (rw (write_plan-stale row found (λ e. ground (arith, e)), transaction))
    ]
  ]

  pub commit_plan-IsValid : IsValid (commit_plan p db).1
  commit_plan-IsValid = elim commit_plan-cases [
    | inl (row, found, same, w, after) ↦ rw after (advanced-IsValid row found same)
    | inr refused ↦ rw refused valid
  ]
