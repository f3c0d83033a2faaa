-- ===== src/Observation/OneShot.antt =====
-- A one-shot intent starts its effect at most once, and never before it is recorded.
use mathlib.Core.Path.{subst}
use agent00x.Prelude.{
  ℕ, zero, suc, ◌+◌, ◌≤◌, Text, text, Bool, true, none, some, Kind, ok, err, ◌≡◌, refl, arith,
  bind_returns, Outcome, Result-cases, inl, inr, ◌⊎◌, sym, ap, ◌∙◌, ok_injective,
}
use agent00x.Digests.{sha256_digest}
use agent00x.Host.{Host}
use agent00x.Observation.AppendOnly.{Write, write, write-Keeps, once-new}
use agent00x.Observation.Checks.{id_of, valid_event}
use agent00x.Observation.Dispatch.{
  returned, dispatched, then_dispatch, persist, run_gated_dispatch, sqlite_journal,
}
use agent00x.Observation.EventSchema.{event_schema}
use agent00x.Observation.Pairs.{
  Pair, record_once, with_checkpoint, with_intent, prepared_pair, once_checks, admitted_once,
  digest_if_dict,
}
use agent00x.Observation.Sqlite.{insert_row, next_cursor, Row, row_id, SqliteStore}
use agent00x.Observation.Stored.{find-insert_row}
use agent00x.Tables.{find}
use agent00x.Validator.{validate}
use agent00x.Values.{Value, dict, Fields, fields_of}

abbrev pub event_id_of : Value → Text
event_id_of v = id_of (text "event_id") (fields_of v)

module _ (host : Host) (re_search : Text → Text → Bool) where
  valid_event-fields :
      (v : Value) (d : Fields) → valid_event host re_search v ≡ ok d → d ≡ fields_of v
  unfolding valid_event
  valid_event-fields v d h =
      let (_, _, h1) =
        bind_returns (validate host re_search v (dict event_schema) (text "$")) _ h in
      sym (ok_injective (fields_of v) d h1)

  admitted-intent :
      (c i : Value) (s : SqliteStore) (p : Pair)
      → admitted_once host re_search c i s ≡ ok p
      → p.intent ≡ fields_of i
  unfolding admitted_once prepared_pair
  admitted-intent c i s p h =
      let (p', prepared, h1) = bind_returns (prepared_pair host re_search c i) _ h in
      let (d, valid, h2) = bind_returns (valid_event host re_search i) _ prepared in
      let (g, _, h3) = bind_returns (sha256_digest host.sha256_hex i) _ h2 in
      let (g', _, h4) = bind_returns (digest_if_dict host re_search c) _ h3 in
      let (_, _, h5) = bind_returns (once_checks host re_search c p' s) _ h1 in
      sym (ap (λ (q : Pair). q.intent) (ok_injective p' p h5))
      ∙ (sym (ap (λ (q : Pair). q.intent) (ok_injective _ p' h4)) ∙ valid_event-fields i d valid)

  -- The one-shot transaction is refused and changes nothing, or records an intent that was not there.
  once-cases :
      (c i : Value) (s : SqliteStore)
      → ((k : Kind) × (m : Text) × (record_once host re_search c i s ≡ (err k m, s)))
        ⊎ ((cursor : ℕ) × (s' : SqliteStore) × (record_once host re_search c i s ≡ (ok cursor, s'))
            × (find row_id (event_id_of i) s.event_rows ≡ none)
            × ((r : Row) × (find row_id (event_id_of i) s'.event_rows ≡ some r)))
  unfolding record_once with_intent
  once-cases c i s = elim (Result-cases (admitted_once host re_search c i s)) [
    | inr raised ↦ let (k, m, e) = raised in inl (k, m, rw (e, record_once) refl)
    | inl admitted ↦
        let (p, e) = admitted in
        let whole = admitted-intent c i s p e in
        let s1 = with_checkpoint (fields_of c) p.checkpoint_digest s in
        let (r, at, _, _) =
          find-insert_row (text "") (id_of (text "event_id") p.intent) p.intent p.intent_digest
            s1.event_rows in
        let rows =
          insert_row (id_of (text "event_id") p.intent) p.intent p.intent_digest s1.event_rows in
        let s2 : SqliteStore = record s1 { event_rows = rows } in
        inr (
          next_cursor s1.event_rows,
          s2,
          rw (e, record_once) refl,
          subst (λ d. find row_id (id_of (text "event_id") d) s.event_rows ≡ none) whole
              (once-new host re_search c i s p e),
          (r, subst (λ d. find row_id (id_of (text "event_id") d) rows ≡ some r) whole at),
        )
  ]

-- A callback that does not count, and an effect that counts how often it is started.
abbrev pub uncounted :
    {E : Type 0} → (ℕ → E → Outcome E (Unit {0})) → ℕ → E × ℕ → Outcome (E × ℕ) (Unit {0})
uncounted callback cursor (e, n) = let (r, e') = callback cursor e in (r, (e', n))

module _ {E A : Type 0} where
  abbrev pub counted : (E → Outcome E A) → E × ℕ → Outcome (E × ℕ) A
  counted dispatch (e, n) = let (r, e') = dispatch e in (r, (e', suc n))

  returned-state : (cursor : ℕ) (o : Outcome (E × ℕ) A) → (returned true cursor o).1 ≡ o.1
  unfolding returned
  returned-state cursor (ok a, e) = refl
  returned-state cursor (err k m, e) = refl

  dispatched-count :
      (cursor : ℕ) (dispatch : E → Outcome E A) (o : Outcome (E × ℕ) (Unit {0}))
      → (dispatched true cursor (counted dispatch) o).1.1 ≤ o.1.1 + 1
  unfolding dispatched
  dispatched-count cursor dispatch (err k m, (e, n)) = omega arith
  dispatched-count cursor dispatch (ok u, (e, n)) =
      let same = ap (λ (x : E × ℕ). x.1) (returned-state cursor (counted dispatch (e, n))) in
      omega arith

  then_dispatch-recorded :
      (callback : ℕ → E → Outcome E (Unit {0})) (dispatch : E → Outcome E A) (e : E) (n cursor : ℕ)
      (s : SqliteStore)
      → ((then_dispatch true (uncounted callback) (counted dispatch) (e, n) (ok cursor, s)).1.0 ≡ s)
        × ((then_dispatch true (uncounted callback) (counted dispatch) (e, n) (ok cursor, s)).1.1.1
            ≤ n + 1)
  unfolding then_dispatch
  then_dispatch-recorded callback dispatch e n cursor s =
      (refl, dispatched-count cursor dispatch (uncounted callback cursor (e, n)))

  then_dispatch-refused :
      (callback : ℕ → E → Outcome E (Unit {0})) (dispatch : E → Outcome E A) (e : E) (n : ℕ)
      (k : Kind) (m : Text) (s : SqliteStore)
      → (then_dispatch true (uncounted callback) (counted dispatch) (e, n) (err k m, s)).1
        ≡ (s, (e, n))
  unfolding then_dispatch
  then_dispatch-refused callback dispatch e n k m s = refl

module _ (host : Host) (re_search : Text → Text → Bool) (id : Text) where
  -- A one-shot dispatch on the SQLite journal.
  abbrev pub gate :
      {E A : Type 0}
      → Value
      → Value
      → (ℕ → E → Outcome E (Unit {0}))
      → (E → Outcome E A)
      → SqliteStore × (E × ℕ)
      → Outcome (SqliteStore × (E × ℕ)) (ℕ × A)
  gate checkpoint intent callback dispatch =
      run_gated_dispatch (sqlite_journal host re_search) true checkpoint intent (uncounted callback)
        (counted dispatch)

  -- What the calls on a journal lead to, with the number of times that an effect was started for
  -- the intent `id`. Between them anything but the count may change outside of the journal.
  pub data Reach {E : Type 0} : SqliteStore → E → ℕ → Type 1 where
    start : {s : SqliteStore} {e : E} {n : ℕ} → n ≡ 0 → Reach s e n
    wrote :
        {s s' : SqliteStore} {e e' : E} {n : ℕ}
        → Reach s e n
        → (w : Write) → (write host re_search w s).1 ≡ s'
        → Reach s' e' n
    gated :
        {s s' : SqliteStore} {e e' : E} {n n' : ℕ} {A : Type 0}
        → Reach s e n
        → (checkpoint intent : Value) (callback : ℕ → E → Outcome E (Unit {0}))
          (dispatch : E → Outcome E A)
        → event_id_of intent ≡ id
        → (gate checkpoint intent callback dispatch (s, (e, n))).1 ≡ (s', (e', n'))
        → Reach s' e' n'

  -- At most one start, and none before the intent is in the journal.
  abbrev pub StartsOnce : SqliteStore → ℕ → Type 0
  StartsOnce s n = (n ≤ 1) × (1 ≤ n → (r : Row) × (find row_id id s.event_rows ≡ some r))

  gate-StartsOnce :
      {E A : Type 0} (checkpoint intent : Value) (callback : ℕ → E → Outcome E (Unit {0}))
      (dispatch : E → Outcome E A) (s : SqliteStore) (e : E) (n : ℕ)
      → event_id_of intent ≡ id
      → StartsOnce s n
      → StartsOnce
          (gate checkpoint intent callback dispatch (s, (e, n))).1.0
          (gate checkpoint intent callback dispatch (s, (e, n))).1.1.1
  unfolding run_gated_dispatch persist
  gate-StartsOnce checkpoint intent callback dispatch s e n same v =
      elim (once-cases host re_search checkpoint intent s) [
        | inl unchanged ↦ let (k, m, at) = unchanged in rw at v
        | inr recorded ↦
            let (cursor, s', at, new, there) = recorded in
            let (r, found) = there in
            let after = then_dispatch-recorded callback dispatch e n cursor s' in
            let zero = no_start n (λ h. absent (v.1 h) new) in
            rw at (
              one_more_at_most after.1 zero,
              λ _. (r, subst (λ j. find row_id j s'.event_rows ≡ some r) same found),
            )
      ]
    where
      no_start : (n : ℕ) → (1 ≤ n → ⊥) → n ≡ 0
      no_start zero h = refl
      no_start (suc n) h = absurd (h (omega arith))

      absent :
          ((r : Row) × (find row_id id s.event_rows ≡ some r))
          → find row_id (event_id_of intent) s.event_rows ≡ none
          → ⊥
      absent (r, there) gone =
          clash (sym there ∙ subst (λ j. find row_id j s.event_rows ≡ none) same gone)
        where
          clash : some r ≡ none → ⊥
          clash x = cc

      one_more_at_most : {n n' : ℕ} → n' ≤ n + 1 → n ≡ 0 → n' ≤ 1
      one_more_at_most h z = omega arith

  -- However often a one-shot intent is dispatched on a SQLite journal, with whatever checkpoints,
  -- callbacks and effects, and whatever else is written between, its effect is started at most once,
  -- and when it is started the journal holds the intent, and keeps it.
  pub Reach-StartsOnce :
      {E : Type 0} {s : SqliteStore} {e : E} {n : ℕ} → Reach s e n → StartsOnce s n
  Reach-StartsOnce (start z) = (omega arith, λ h. absurd (omega arith))
  Reach-StartsOnce (wrote {s} {n} before w at) =
      let (once, there) = Reach-StartsOnce before in
      (
        once,
        λ h.
            let (r, found) = there h in
            (
              r,
              subst (λ t. find row_id id t.event_rows ≡ some r) at
                  (write-Keeps host re_search w s id r found),
            ),
      )
  Reach-StartsOnce (gated {s} {e} {n} before checkpoint intent callback dispatch same at) =
      subst (λ t. StartsOnce t.0 t.1.1) at
        (gate-StartsOnce checkpoint intent callback dispatch s e n same (Reach-StartsOnce before))
