-- ===== src/Publication/Preparation.antt =====
-- Preparing an attempt twice.
use agent00x.Prelude.{
  Option-cases, Bool-cases, Result-cases, inl, inr, sym, ap, ◌∙◌, text_eq_refl, Text, text, true,
  Option, none, some, ◌∷◌, Kind, ok, err, ◌≡◌, refl, arith, Outcome,
}
use agent00x.Publication.Journal.{
  conflict, PublicationRecord, Journal, find_attempt, process_of, draft, enter, prepare,
  same_payload, same_optional, has_key,
}
use agent00x.Tables.{find-cons}
use agent00x.Values.{Value}

same_optional_refl : (o : Option Text) → same_optional o o ≡ true
unfolding same_optional
same_optional_refl none = refl
same_optional_refl (some s) = text_eq_refl s

same_payload_refl : (row : PublicationRecord) → same_payload row row ≡ true
unfolding same_payload
same_payload_refl row = ground (
  arith,
  text_eq_refl row.idempotency_key,
  text_eq_refl row.request_digest,
  text_eq_refl row.repository_id,
  same_optional_refl row.base_branch,
  same_optional_refl row.verified_files_digest,
)

-- A call that raised returned no attempt.
raised_not_prepared :
    {P : Type 0} (k : Kind) (m : Text) (rows rows' : Journal) (row : PublicationRecord)
    (o : Outcome Journal PublicationRecord)
    → o ≡ (err k m, rows)
    → o ≡ (ok row, rows')
    → P
raised_not_prepared {P} k m rows rows' row o raised returned = go (
    sym (ap (λ (x : Outcome Journal PublicationRecord). x.0) raised)
    ∙ ap (λ (x : Outcome Journal PublicationRecord). x.0) returned)
  where
    go : err k m ≡ ok row → P
    go e = cc

-- A found attempt with this payload is returned.
enter-found :
    (new existing : PublicationRecord) (rows : Journal)
    → find_attempt new.process_id rows ≡ some existing
    → same_payload existing new ≡ true
    → enter new rows ≡ (ok existing, rows)
unfolding enter
enter-found new existing rows at same = rw (enter, at, same) refl

as_returned :
    (new existing : PublicationRecord) (rows rows' : Journal) (row : PublicationRecord)
    → enter new rows ≡ (ok existing, rows)
    → ◌≡◌ {A = Outcome Journal PublicationRecord} (ok existing, rows) (ok row, rows')
    → enter new rows' ≡ (ok row, rows')
as_returned new existing rows rows' row again same =
    ap (enter new) (sym (ap (λ (o : Outcome Journal PublicationRecord). o.1) same)) ∙ again ∙ same

enter-again :
    (new row : PublicationRecord) (rows rows' : Journal)
    → enter new rows ≡ (ok row, rows')
    → enter new rows' ≡ (ok row, rows')
unfolding enter conflict
enter-again new row rows rows' h = elim (Option-cases (find_attempt new.process_id rows)) [
  | inl absent ↦ elim (Bool-cases (has_key new.idempotency_key rows)) [
    | inl taken ↦
        raised_not_prepared Kind.value_error (text "publication payload conflict") rows rows' row
          (enter new rows) (rw (enter, absent, taken) refl) h
    | inr free ↦
        as_returned new new (new ∷ rows) rows' row
          (enter-found new new (new ∷ rows)
            (find-cons process_of new.process_id new rows ∙ rw (text_eq_refl new.process_id) refl)
            (same_payload_refl new))
          (sym (rw (enter, absent, free) refl) ∙ h)
  ]
  | inr found ↦ elim (Bool-cases (same_payload found.0 new)) [
    | inl same ↦
        as_returned new found.0 rows rows' row (enter-found new found.0 rows found.1 same)
          (sym (enter-found new found.0 rows found.1 same) ∙ h)
    | inr differs ↦
        raised_not_prepared Kind.value_error (text "publication payload conflict") rows rows' row
          (enter new rows) (rw (enter, found.1, differs) refl) h
  ]
]

-- `prepare` is idempotent: where it returned an attempt, the same call made again returns the same
-- attempt and leaves the journal as it is.
pub prepare-again :
    (process_id key digest repository files : Value) (rows rows' : Journal)
    (row : PublicationRecord)
    → prepare process_id key digest repository files rows ≡ (ok row, rows')
    → prepare process_id key digest repository files rows' ≡ (ok row, rows')
unfolding prepare
prepare-again p key digest repository files rows rows' row h =
    elim (Result-cases (draft p key digest repository files)) [
      | inl drafted ↦
          rw (prepare, drafted.1)
            (enter-again drafted.0 row rows rows' (sym (rw (prepare, drafted.1) refl) ∙ h))
      | inr raised ↦
          let (k, m, e) = raised in
          raised_not_prepared k m rows rows' row (prepare p key digest repository files rows)
            (rw (prepare, e) refl) h
    ]
