-- ===== src/RuntimeAudit/RoundTrip.antt =====
-- What `append_audit_event` writes is what `audit_events` reads, behind the events before it.
use agent00x.Prelude.{
  ℕ, suc, text, text_eq_refl, Option, List, [], ◌∷◌, ◌++◌, ok, bind_returns, ◌≡◌, refl,
}
use agent00x.RuntimeAudit.{
  audit_checks, decode_stored_json, append_audit_event, audit_events, AuditView, audit_row,
  audit_rows_of, decode_audit, as_array,
}
use agent00x.RuntimeSchema.{AuditEvent, ProcessRecord, Db, DateTime, get, timestamp}
use agent00x.Tables.{select-cons}
use agent00x.Values.{Value, text_of}
use agent00x.Workflow.{Object}

abbrev audit_view : AuditEvent → Value → AuditView
audit_view e codes = record {
  event_id = e.event_id;
  actor_id = e.actor_id;
  event_type = e.event_type;
  input_digest = e.input_digest;
  result = e.result;
  reason_codes = codes;
  occurred_at = e.occurred_at;
}

decode_audit-append :
    (es : List AuditEvent) (views more out : List AuditView)
    → decode_audit es views ≡ ok out
    → decode_audit es (views ++ more) ≡ ok (out ++ more)
unfolding decode_audit
decode_audit-append [] views more out h = cc
decode_audit-append (e ∷ es) views more out h =
    let (codes, d, h') =
      bind_returns
        (decode_stored_json e.reason_codes_json (text "runtime: stored audit event is corrupt")) _
        h in
    rw d (decode_audit-append es (audit_view e codes ∷ views) more out h')

append_audit_event-ok :
    (clock : ℕ) (pid actor kind digest result codes : Value) (now : Option (Object DateTime))
    (db db' : Db)
    → append_audit_event clock pid actor kind digest result codes now db ≡ ok db'
    → (r : ProcessRecord) × (at : ℕ) × (get pid db ≡ ok r)
      × (record db {
        audit_events =
            audit_row r.process_id actor kind digest result codes at db ∷ db.audit_events;
        audit_count = suc db.audit_count;
      }
          ≡ db')
unfolding append_audit_event
append_audit_event-ok clock pid actor kind digest result codes now db db' h =
    let (_, _, h2) = bind_returns (audit_checks actor kind digest result codes) _ h in
    let (r, got, h3) = bind_returns (get pid db) _ h2 in
    let (at, _, h4) = bind_returns (timestamp clock now) _ h3 in (r, at, got, ok-injective h4)
  where
    ok-injective : {a b : Db} → ok a ≡ ok b → a ≡ b
    ok-injective e = cc

module _ (pid : Value) (r : ProcessRecord) (db : Db) (got : get pid db ≡ ok r) where
  audit_events-of :
      audit_events pid db ≡ decode_audit (audit_rows_of r.process_id db.audit_events) []
  unfolding audit_events
  audit_events-of = rw got

-- An accepted audit event comes last in what `audit_events` then returns, with the fields it was
-- given; what was returned before comes first, unchanged.
pub audit_events-append_audit_event :
    (clock : ℕ) (pid actor kind digest result codes : Value) (now : Option (Object DateTime))
    (db db' : Db) (views : List AuditView)
    → append_audit_event clock pid actor kind digest result codes now db ≡ ok db'
    → audit_events pid db ≡ ok views
    → (view : AuditView) × (audit_events pid db' ≡ ok (views ++ view ∷ []))
      × (view.actor_id ≡ text_of actor)
      × (view.event_type ≡ text_of kind)
      × (view.input_digest ≡ text_of digest)
      × (view.result ≡ text_of result)
      × (view.reason_codes ≡ as_array codes)
unfolding get decode_audit
audit_events-append_audit_event clock pid actor kind digest result codes now db db' views h before =
    let (r, at, got, after) =
      append_audit_event-ok clock pid actor kind digest result codes now db db' h in
    let row = audit_row r.process_id actor kind digest result codes at db in
    (
      audit_view row (as_array codes),
      rw (← after) (appended r at got),
      refl,
      refl,
      refl,
      refl,
      refl,
    )
  where
    appended :
        (r : ProcessRecord) (at : ℕ)
        → get pid db ≡ ok r
        → let row = audit_row r.process_id actor kind digest result codes at db in
          audit_events pid
            (record db { audit_events = row ∷ db.audit_events; audit_count = suc db.audit_count })
          ≡ ok (views ++ audit_view row (as_array codes) ∷ [])
    appended r at got =
        let row = audit_row r.process_id actor kind digest result codes at db in
        let audited : Db = record db {
          audit_events = row ∷ db.audit_events;
          audit_count = suc db.audit_count;
        } in
        rw (audit_events-of pid r audited got, select-cons, text_eq_refl)
          (decode_audit-append (audit_rows_of r.process_id db.audit_events) []
            (audit_view row (as_array codes) ∷ []) views
            (rw (audit_events-of pid r db got) at before))
