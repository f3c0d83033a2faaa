-- ===== src/Observation/AppendOnly.antt =====
-- The SQLite journal only grows: a stored event keeps its row whatever is called.
use mathlib.Core.Path.{subst}
use agent00x.Prelude.{
  ℕ, Text, text, Bool, false, Option, none, some, List, [], ◌∷◌, Kind, ok, err, ◌≡◌, refl,
  bind_returns, raise_if_passes, Outcome, Result-cases, Option-cases, inl, inr, sym, ap, ◌∙◌,
  ok_injective,
}
use agent00x.Host.{Host}
use agent00x.Observation.Checks.{id_of, check_checkpoint}
use agent00x.Observation.Memory.{prepared_event, prepared_checkpoint}
use agent00x.Observation.Pairs.{
  Pair, record_pair, record_once, with_checkpoint, with_intent, intent_cursor, prepared_pair,
  admitted_pair, admitted_once, once_checks, is_stored,
}
use agent00x.Observation.Sqlite.{
  Row, row_id, SqliteStore, store_row, append_row, record_checkpoint_row, stored_events,
}
use agent00x.Observation.Stored.{
  Keeps, Keeps-refl, Keeps-insert, store_row-Keeps, store_row-finds, store_row-again,
}
use agent00x.Tables.{find}
use agent00x.Values.{Value, Fields, fields_of}

-- A call that writes.
pub data Write : Type 0 where
  appends saves : Value → Write
  pairs onces : Value → Value → Write

module _ (host : Host) (re_search : Text → Text → Bool) where
  unfoldable pub write : Write → SqliteStore → Outcome SqliteStore ℕ
  unfolding append_row record_checkpoint_row record_pair record_once
  write (appends v) s = append_row host re_search v s
  write (saves v) s = record_checkpoint_row host re_search v s
  write (pairs c i) s = record_pair host re_search c i s
  write (onces c i) s = record_once host re_search c i s

  unfoldable pub write_all : List Write → SqliteStore → SqliteStore
  unfolding write
  write_all [] s = s
  write_all (w ∷ ws) s = write_all ws (write w s).1

  append_row-Keeps :
      (v : Value) (s : SqliteStore)
      → Keeps s.event_rows (append_row host re_search v s).1.event_rows
  unfolding append_row
  append_row-Keeps v s = elim (Result-cases (prepared_event host re_search v)) [
    | inr raised ↦ rw (raised.2, append_row) (Keeps-refl s.event_rows)
    | inl prepared ↦
        let ((d, digest), e) = prepared in
        rw (e, append_row) (store_row-Keeps _ _ d digest s.event_rows)
  ]

  record_checkpoint_row-Keeps :
      (v : Value) (s : SqliteStore)
      → (record_checkpoint_row host re_search v s).1.event_rows ≡ s.event_rows
  unfolding record_checkpoint_row
  record_checkpoint_row-Keeps v s =
      elim (Result-cases (prepared_checkpoint host re_search (stored_events s) v)) [
        | inr raised ↦ rw (raised.2, record_checkpoint_row) refl
        | inl prepared ↦ rw (prepared.1, record_checkpoint_row) refl
      ]

  pub with_checkpoint-events :
      (c : Fields) (digest : Text) (s : SqliteStore)
      → (with_checkpoint c digest s).event_rows ≡ s.event_rows
  unfolding with_checkpoint
  with_checkpoint-events c digest s =
      elim (Option-cases (find row_id (id_of (text "checkpoint_id") c) s.checkpoint_rows)) [
        | inl new ↦ rw (new, with_checkpoint) refl
        | inr old ↦ rw (old.1, with_checkpoint) refl
      ]

  -- What `record_once` found before it inserted.
  pub once-new :
      (c i : Value) (s : SqliteStore) (p : Pair)
      → admitted_once host re_search c i s ≡ ok p
      → find row_id (id_of (text "event_id") p.intent) s.event_rows ≡ none
  unfolding admitted_once once_checks
  once-new c i s p h =
      let (p', _, h1) = bind_returns (prepared_pair host re_search c i) _ h in
      let (_, checked, h2) = bind_returns (once_checks host re_search c p' s) _ h1 in
      let (_, _, h3) =
        bind_returns (check_checkpoint host re_search (stored_events s) c) _ checked in
      let (new, _) =
        raise_if_passes (is_stored (find row_id (id_of (text "event_id") p'.intent) s.event_rows)) _
          _ _ h3 in
      let missing = unstored (find row_id (id_of (text "event_id") p'.intent) s.event_rows) new in
      subst (λ q. find row_id (id_of (text "event_id") q.intent) s.event_rows ≡ none)
        (ok_injective p' p h2) missing
    where
      unstored : (o : Option Row) → is_stored o ≡ false → o ≡ none
      unstored none e = refl
      unstored (some r) e = unfold is_stored in (cc)

  record_once-Keeps :
      (c i : Value) (s : SqliteStore)
      → Keeps s.event_rows (record_once host re_search c i s).1.event_rows
  unfolding record_once with_intent
  record_once-Keeps c i s = elim (Result-cases (admitted_once host re_search c i s)) [
    | inr raised ↦ rw (raised.2, record_once) (Keeps-refl s.event_rows)
    | inl admitted ↦
        let (p, e) = admitted in
        rw (e, record_once)
          (rw (with_checkpoint-events (fields_of c) p.checkpoint_digest s)
            (Keeps-insert _ p.intent p.intent_digest s.event_rows (once-new c i s p e)))
  ]

  intent_cursor-Keeps :
      (d : Fields) (digest : Text) (s : SqliteStore) (o : Option Row)
      → find row_id (id_of (text "event_id") d) s.event_rows ≡ o
      → Keeps s.event_rows (intent_cursor o d digest s).1.event_rows
  unfolding intent_cursor with_intent
  intent_cursor-Keeps d digest s none e = Keeps-insert _ d digest s.event_rows e
  intent_cursor-Keeps d digest s (some r) e = Keeps-refl s.event_rows

  record_pair-Keeps :
      (c i : Value) (s : SqliteStore)
      → Keeps s.event_rows (record_pair host re_search c i s).1.event_rows
  unfolding record_pair
  record_pair-Keeps c i s = elim (Result-cases (admitted_pair host re_search c i s)) [
    | inr raised ↦ rw (raised.2, record_pair) (Keeps-refl s.event_rows)
    | inl admitted ↦
        let (p, e) = admitted in
        let same = with_checkpoint-events (fields_of c) p.checkpoint_digest s in
        rw (e, record_pair)
          (subst
            (λ rows.
              Keeps rows
                (intent_cursor (find row_id (id_of (text "event_id") p.intent) s.event_rows)
                  p.intent p.intent_digest
                  (with_checkpoint (fields_of c) p.checkpoint_digest s)).1.event_rows)
            same
            (intent_cursor-Keeps p.intent p.intent_digest
              (with_checkpoint (fields_of c) p.checkpoint_digest s) _
              (ap (find row_id (id_of (text "event_id") p.intent)) same)))
  ]

  pub write-Keeps : (w : Write) (s : SqliteStore) → Keeps s.event_rows (write w s).1.event_rows
  unfolding write
  write-Keeps (appends v) s = append_row-Keeps v s
  write-Keeps (saves v) s =
      subst (Keeps s.event_rows) (sym (record_checkpoint_row-Keeps v s)) (Keeps-refl s.event_rows)
  write-Keeps (pairs c i) s = record_pair-Keeps c i s
  write-Keeps (onces c i) s = record_once-Keeps c i s

  pub write_all-Keeps :
      (ws : List Write) (s : SqliteStore) → Keeps s.event_rows (write_all ws s).event_rows
  unfolding write_all
  write_all-Keeps [] s id r h = h
  write_all-Keeps (w ∷ ws) s id r h = write_all-Keeps ws (write w s).1 id r (write-Keeps w s id r h)

  append_row-raises :
      (v : Value) (s : SqliteStore) (k : Kind) (m : Text)
      → prepared_event host re_search v ≡ err k m
      → (append_row host re_search v s).0 ≡ err k m
  unfolding append_row
  append_row-raises v s k m e = rw (e, append_row) refl

  -- What is appended once it is validated and digested.
  append_row-stores :
      (v : Value) (s : SqliteStore) (d : Fields) (digest : Text)
      → prepared_event host re_search v ≡ ok (d, digest)
      → append_row host re_search v s ≡ (
        (store_row (text "event id conflict") (id_of (text "event_id") d) d digest s.event_rows).0,
        record s {
          event_rows =
              (store_row
                (text "event id conflict")
                (id_of (text "event_id") d)
                d
                digest
                s.event_rows).1;
        },
      )
  unfolding append_row
  append_row-stores v s d digest e = rw (e, append_row) refl

  -- An event that was appended keeps its cursor: whatever is written after it, to append the same
  -- event again returns the same cursor.
  pub append_row-again :
      (v : Value) (s : SqliteStore) (n : ℕ) (ws : List Write)
      → (append_row host re_search v s).0 ≡ ok n
      → (append_row host re_search v (write_all ws (append_row host re_search v s).1)).0 ≡ ok n
  append_row-again v s n ws h = elim (Result-cases (prepared_event host re_search v)) [
    | inr raised ↦
        let (k, m, e) = raised in absurd (clash k m (sym (append_row-raises v s k m e) ∙ h))
    | inl prepared ↦
        let ((d, digest), e) = prepared in
        let here = append_row-stores v s d digest e in
        let (r, found, placed, same) =
          store_row-finds _ _ d digest s.event_rows n
            (sym (ap (λ (o : Outcome SqliteStore ℕ). o.0) here) ∙ h) in
        let first : find row_id (id_of (text "event_id") d)
              (append_row host re_search v s).1.event_rows
            ≡ some r =
          ap (λ (o : Outcome SqliteStore ℕ). find row_id (id_of (text "event_id") d) o.1.event_rows)
            here
          ∙ found in
        let later = write_all ws (append_row host re_search v s).1 in
        let kept = write_all-Keeps ws (append_row host re_search v s).1 _ r first in
        ap (λ (o : Outcome SqliteStore ℕ). o.0) (append_row-stores v later d digest e)
        ∙ (store_row-again _ _ d digest later.event_rows r kept same ∙ ap ok placed)
  ]
    where
      clash : (k : Kind) (m : Text) → err k m ≡ ok n → ⊥
      clash k m e = cc
