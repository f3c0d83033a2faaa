-- ===== src/Observation/Refinement.antt =====
-- The SQLite journal implements the journal in memory: calls cannot tell them apart.
use agent00x.Prelude.{
  ℕ, Text, text, Bool, List, [], ◌∷◌, Result, ◌≡◌, refl, Outcome, Result-cases, inl, inr, sym, ap,
}
use agent00x.Host.{Host}
use agent00x.Observation.Checks.{check_result_causality}
use agent00x.Observation.Memory.{
  MemoryStore, new_memory, append, record_checkpoint, prepared_event, prepared_checkpoint,
}
use agent00x.Observation.Rows.{Same, none_yet, enter-store_row, by_cursor-items}
use agent00x.Observation.Sqlite.{
  SqliteStore, new_sqlite, append_row, record_checkpoint_row, stored_events, stored_checkpoints,
}
use agent00x.Values.{Value}

-- The two stores hold the same events and the same checkpoints.
pub record Refines (m : MemoryStore) (s : SqliteStore) : Type 0 where
  pub events : Same (text "event_id") m.events.items m.events.digests s.event_rows
  pub checkpoints :
      Same (text "checkpoint_id") m.checkpoints.items m.checkpoints.digests s.checkpoint_rows

stored_events-items :
    {m : MemoryStore} {s : SqliteStore} → Refines m s → stored_events s ≡ m.events.items
unfolding stored_events
stored_events-items r = (by_cursor-items r.events).1

stored_checkpoints-items :
    {m : MemoryStore} {s : SqliteStore} → Refines m s → stored_checkpoints s ≡ m.checkpoints.items
unfolding stored_checkpoints
stored_checkpoints-items r = (by_cursor-items r.checkpoints).1

-- Equal results, and stores that still hold the same.
abbrev pub Alike : Outcome MemoryStore ℕ → Outcome SqliteStore ℕ → Type 0
Alike o o' = (o.0 ≡ o'.0) × Refines o.1 o'.1

module _ (host : Host) (re_search : Text → Text → Bool) where
  append-Alike :
      (v : Value) (m : MemoryStore) (s : SqliteStore)
      → Refines m s
      → Alike (append host re_search v m) (append_row host re_search v s)
  unfolding append append_row
  append-Alike v m s r = elim (Result-cases (prepared_event host re_search v)) [
    | inr raised ↦ let (k, msg, e) = raised in rw (e, append, append_row) (refl, r)
    | inl prepared ↦
        let ((d, digest), e) = prepared in
        let agreed =
          enter-store_row (text "event_id") (text "event id conflict") d digest m.events
            s.event_rows r.events in
        rw (e, append, append_row)
          (agreed.0, record { events = agreed.1; checkpoints = r.checkpoints })
  ]

  record_checkpoint-Alike :
      (v : Value) (m : MemoryStore) (s : SqliteStore)
      → Refines m s
      → Alike (record_checkpoint host re_search v m) (record_checkpoint_row host re_search v s)
  unfolding record_checkpoint record_checkpoint_row
  record_checkpoint-Alike v m s r =
      elim (Result-cases (prepared_checkpoint host re_search m.events.items v)) [
        | inr raised ↦
            let (k, msg, e) = raised in
            rw (stored_events-items r, e, record_checkpoint, record_checkpoint_row) (refl, r)
        | inl prepared ↦
            let ((d, digest), e) = prepared in
            let agreed =
              enter-store_row (text "checkpoint_id") (text "checkpoint id conflict") d digest
                m.checkpoints s.checkpoint_rows r.checkpoints in
            rw (stored_events-items r, e, record_checkpoint, record_checkpoint_row)
              (agreed.0, record { events = r.events; checkpoints = agreed.1 })
      ]

-- A call that both stores offer.
pub data Call : Type 0 where
  appends records resolves : Value → Call

module _ (host : Host) (re_search : Text → Text → Bool) where
  unfoldable pub call_memory : Call → MemoryStore → Outcome MemoryStore ℕ
  unfolding append record_checkpoint check_result_causality
  call_memory (appends v) m = append host re_search v m
  call_memory (records v) m = record_checkpoint host re_search v m
  call_memory (resolves v) m = (check_result_causality host re_search m.events.items v, m)

  unfoldable pub call_sqlite : Call → SqliteStore → Outcome SqliteStore ℕ
  unfolding append_row record_checkpoint_row check_result_causality
  call_sqlite (appends v) s = append_row host re_search v s
  call_sqlite (records v) s = record_checkpoint_row host re_search v s
  call_sqlite (resolves v) s = (check_result_causality host re_search (stored_events s) v, s)

  call-Alike :
      (c : Call) (m : MemoryStore) (s : SqliteStore)
      → Refines m s
      → Alike (call_memory c m) (call_sqlite c s)
  unfolding call_memory call_sqlite
  call-Alike (appends v) m s r = append-Alike host re_search v m s r
  call-Alike (records v) m s r = record_checkpoint-Alike host re_search v m s r
  call-Alike (resolves v) m s r = (
    ap (λ events. check_result_causality host re_search events v) (sym (stored_events-items r)),
    r,
  )

  -- The results of calls in their order, and the store that they leave.
  unfoldable pub run_memory : List Call → MemoryStore → List (Result ℕ) × MemoryStore
  unfolding call_memory
  run_memory [] m = ([], m)
  run_memory (c ∷ cs) m =
      let (result, m') = call_memory c m in
      let (results, last) = run_memory cs m' in (result ∷ results, last)

  unfoldable pub run_sqlite : List Call → SqliteStore → List (Result ℕ) × SqliteStore
  unfolding call_sqlite
  run_sqlite [] s = ([], s)
  run_sqlite (c ∷ cs) s =
      let (result, s') = call_sqlite c s in
      let (results, last) = run_sqlite cs s' in (result ∷ results, last)

  run-Refines :
      (cs : List Call) (m : MemoryStore) (s : SqliteStore)
      → Refines m s
      → ((run_memory cs m).0 ≡ (run_sqlite cs s).0)
        × Refines (run_memory cs m).1 (run_sqlite cs s).1
  unfolding run_memory run_sqlite
  run-Refines [] m s r = (refl, r)
  run-Refines (c ∷ cs) m s r =
      let (same, r') = call-Alike c m s r in
      let (rest, r'') = run-Refines cs (call_memory c m).1 (call_sqlite c s).1 r' in
      (λ i. same i ∷ rest i, r'')

  new_stores : Refines new_memory new_sqlite
  unfolding new_memory new_sqlite
  new_stores = record { events = none_yet; checkpoints = none_yet }

  -- Whatever is appended, recorded and resolved, in whatever order, the new SQLite journal returns
  -- and raises what the new journal in memory does, call by call, and both list the same events and
  -- the same checkpoints in the same order at the end.
  pub run_sqlite-run_memory :
      (cs : List Call)
      → ((run_sqlite cs new_sqlite).0 ≡ (run_memory cs new_memory).0)
        × (stored_events (run_sqlite cs new_sqlite).1 ≡ (run_memory cs new_memory).1.events.items)
        × (stored_checkpoints (run_sqlite cs new_sqlite).1
            ≡ (run_memory cs new_memory).1.checkpoints.items)
  run_sqlite-run_memory cs =
      let (same, r) = run-Refines cs new_memory new_sqlite new_stores in
      (sym same, stored_events-items r, stored_checkpoints-items r)
