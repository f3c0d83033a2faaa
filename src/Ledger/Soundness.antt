-- ===== src/Ledger/Soundness.antt =====
-- Every operation keeps the history of every attempt valid.
use mathlib.Core.Path.{subst}
use agent00x.Prelude.{
  &&_split, text_eq_sound, text_eq_refl, Bool-cases, Result-cases, Option-cases, inl, inr, sym, ap,
  ◌∙◌, ok_injective, not-false, Text, text, text_eq, member_text, Bool, true, false, ◌&&◌, ◌||◌,
  not, Option, none, some, List, [], ◌∷◌, Kind, Result, ok, err, ◌≡◌, refl, arith, bind_returns,
  raise_if_passes,
}
use agent00x.Digests.Shape.{is_digest}
use agent00x.Ledger.{
  optional_digest, Ledger, AttemptEvent, is_claimed, attempt_of, events_of, validate_digest,
  ensure_open, claimable, claim, claim_checks, claim_event, append, open_claim, Final, final_event,
  write_final, transition, completed_final, unknown_final, finish, complete, mark_unknown,
}
use agent00x.Ledger.Reading.{absent, digest_stored, valid_history, columns_fit}
use agent00x.Ledger.Words.{outcomes, reasons, unknown_reasons}
use agent00x.Tables.{select-cons}
use agent00x.Values.{Value, null, text_of, in_names}

-- The history of every attempt is valid.
abbrev pub IsValid : List AttemptEvent → Type 0
IsValid events = (attempt_id : Text) → valid_history (events_of attempt_id events) ≡ true

validate_digest-ok : (v : Value) (d : Text) → validate_digest v ≡ ok d → is_digest d ≡ true
unfolding validate_digest
validate_digest-ok v d h = ground arith

append-IsValid :
    (event : AttemptEvent) (events : List AttemptEvent)
    → IsValid events
    → valid_history (event ∷ events_of event.attempt_id events) ≡ true
    → IsValid (event ∷ events)
append-IsValid event events valid new attempt_id =
    elim (Bool-cases (text_eq event.attempt_id attempt_id)) [
      | inl own ↦
          ap valid_history (select-cons attempt_of attempt_id event events ∙ rw own refl)
          ∙ subst (λ p. valid_history (event ∷ events_of p events) ≡ true) (text_eq_sound _ _ own)
              new
      | inr other ↦
          ap valid_history (select-cons attempt_of attempt_id event events ∙ rw other refl)
          ∙ valid attempt_id
    ]

no_events :
    (es : List AttemptEvent)
    → (elim es as (λ _. Bool) [ [] ↦ true | _ ∷ _ ↦ false ]) ≡ true
    → es ≡ []
no_events [] h = refl
no_events (e ∷ es) h = ground arith

pub claimable-empty :
    (attempt_id : Text) (ledger : Ledger)
    → claimable attempt_id ledger ≡ true
    → events_of attempt_id ledger.events ≡ []
unfolding claimable
claimable-empty attempt_id ledger h = no_events _ (&&_split h).1

fresh_claim :
    (attempt_id : Text) (d : Text)
    → is_digest d ≡ true
    → valid_history (claim_event attempt_id d ∷ []) ≡ true
unfolding valid_history columns_fit is_claimed
fresh_claim attempt_id d h = ground (arith, h)

claim_checks-IsValid :
    (attempt_id : Text) (digest : Value) (ledger : Ledger) (d : Text)
    → claim_checks attempt_id digest ledger ≡ ok d
    → IsValid ledger.events
    → IsValid (claim_event attempt_id d ∷ ledger.events)
unfolding claim_checks
claim_checks-IsValid attempt_id digest ledger d h valid =
    let (d', checked, h1) = bind_returns (validate_digest digest) _ h in
    let (_, opened, h2) = bind_returns (ensure_open ledger) _ h1 in
    let (free, h3) =
      raise_if_passes (not (claimable attempt_id ledger)) Kind.ledger_error
        (text "R5 attempt ledger: claim unavailable") _ h2 in
    let shaped : is_digest d ≡ true =
      sym (ap is_digest (ok_injective _ _ h3)) ∙ validate_digest-ok digest d' checked in
    append-IsValid (claim_event attempt_id d) ledger.events valid (
      ap (λ es. valid_history (claim_event attempt_id d ∷ es))
        (claimable-empty attempt_id ledger (not-false free))
      ∙ fresh_claim attempt_id d shaped)

pub claim-IsValid :
    (attempt_id : Text) (digest : Value) (ledger : Ledger)
    → IsValid ledger.events
    → IsValid (claim attempt_id digest ledger).1.events
unfolding claim append
claim-IsValid attempt_id digest ledger valid =
    elim (Result-cases (claim_checks attempt_id digest ledger)) [
      | inl checked ↦ rw (claim, checked.1) (claimed checked.0 checked.1)
      | inr raised ↦ let (k, m, e) = raised in rw (claim, e) valid
    ]
  where
    claimed :
        (d : Text)
        → claim_checks attempt_id digest ledger ≡ ok d
        → IsValid (claim_event attempt_id d ∷ ledger.events)
    claimed d h = claim_checks-IsValid attempt_id digest ledger d h valid

-- What `_transition` writes fits its state.
abbrev pub IsFinal : Final → Type 0
IsFinal final =
    (is_claimed final.state ≡ false)
    × ((attempt_id : Text) (last : AttemptEvent)
        → columns_fit final.state (final_event attempt_id last final) ≡ true)

in_names-member :
    (v : Value) (names : List Text) → in_names v names ≡ true → member_text (text_of v) names ≡ true
unfolding in_names text_of
in_names-member v names h = ground arith

optional_digest-ok :
    (v : Value) (d : Option Text) → optional_digest v ≡ ok d → (absent d || digest_stored d) ≡ true
unfolding optional_digest absent digest_stored
optional_digest-ok null d h =
    subst (λ o. (absent o || digest_stored o) ≡ true) (ok_injective none d h) refl
optional_digest-ok v d h =
    let (x, checked, h1) = bind_returns (validate_digest v) (λ x. ok (some x)) h in
    subst (λ o. (absent o || digest_stored o) ≡ true) (ok_injective (some x) d h1)
      (validate_digest-ok v x checked)

both_hold : {a b : Bool} → (not a || not b) ≡ false → (a ≡ true) × (b ≡ true)
both_hold {a} {b} h = ground arith

all_hold : {a b c : Bool} → a ≡ true → b ≡ true → c ≡ true → (a && (b && c)) ≡ true
all_hold {a} {b} {c} h h' h'' = ground arith

completed_final-IsFinal :
    (digest outcome reason : Value) (final : Final)
    → completed_final digest outcome reason ≡ ok final
    → IsFinal final
unfolding completed_final is_claimed columns_fit
completed_final-IsFinal digest outcome reason final h =
    let (d, checked, h1) = bind_returns (validate_digest digest) _ h in
    let (words, h2) =
      raise_if_passes (not (in_names outcome outcomes) || not (in_names reason reasons))
        Kind.ledger_error (text "R5 attempt ledger: result rejected") _ h1 in
    subst IsFinal (ok_injective _ _ h2) (
      refl,
      λ attempt_id last.
          all_hold (validate_digest-ok digest d checked)
            (in_names-member outcome outcomes (both_hold words).0)
            (in_names-member reason reasons (both_hold words).1),
    )

unknown_final-IsFinal :
    (reason digest : Value) (final : Final) → unknown_final reason digest ≡ ok final → IsFinal final
unfolding unknown_final is_claimed columns_fit
unknown_final-IsFinal reason digest final h =
    let (words, h1) =
      raise_if_passes (not (in_names reason unknown_reasons)) Kind.ledger_error
        (text "R5 attempt ledger: result rejected") _ h in
    let (d, checked, h2) = bind_returns (optional_digest digest) _ h1 in
    subst IsFinal (ok_injective _ _ h2) (
      refl,
      λ attempt_id last. ground (
        arith,
        words,
        optional_digest-ok digest d checked,
        in_names-member reason unknown_reasons,
      ),
    )

-- A valid history that ends in a claim is that claim.
open_claim-alone :
    (events : List AttemptEvent) (last : AttemptEvent)
    → valid_history events ≡ true
    → open_claim events ≡ some last
    → events ≡ last ∷ []
unfolding valid_history open_claim
open_claim-alone [] last v h = ground arith
open_claim-alone (c ∷ []) last v h = ground arith
open_claim-alone (f ∷ c ∷ []) last v h = ground arith
open_claim-alone (f ∷ c ∷ d ∷ es) last v h = ground arith

ended_history :
    (attempt_id : Text) (last : AttemptEvent) (final : Final)
    → valid_history (last ∷ []) ≡ true
    → IsFinal final
    → valid_history (final_event attempt_id last final ∷ last ∷ []) ≡ true
unfolding valid_history
ended_history attempt_id last final h (ends, fits) =
    ground (arith, text_eq_refl last.input_digest, fits attempt_id last)

transition-IsValid :
    (attempt_id : Text) (final : Final) (ledger : Ledger)
    → IsFinal final
    → IsValid ledger.events
    → IsValid (transition attempt_id final ledger).1.events
unfolding transition write_final append
transition-IsValid attempt_id final ledger fits valid = elim (Result-cases (ensure_open ledger)) [
  | inr raised ↦ let (k, m, e) = raised in rw (transition, e) valid
  | inl opened ↦ elim (Option-cases (open_claim (events_of attempt_id ledger.events))) [
    | inl missing ↦ rw (transition, opened.1, missing) valid
    | inr found ↦
        rw (transition, opened.1, found.1)
          (append-IsValid (final_event attempt_id found.0 final) ledger.events valid
            (ended found.0 (open_claim-alone _ found.0 (valid attempt_id) found.1)))
  ]
]
  where
    ended :
        (last : AttemptEvent)
        → events_of attempt_id ledger.events ≡ last ∷ []
        → valid_history (final_event attempt_id last final ∷ events_of attempt_id ledger.events)
          ≡ true
    ended last alone =
        ap (λ es. valid_history (final_event attempt_id last final ∷ es)) alone
        ∙ ended_history attempt_id last final (sym (ap valid_history alone) ∙ valid attempt_id) fits

finish-IsValid :
    (attempt_id : Text) (checked : Result Final) (ledger : Ledger)
    → ((final : Final) → checked ≡ ok final → IsFinal final)
    → IsValid ledger.events
    → IsValid (finish attempt_id checked ledger).1.events
unfolding finish
finish-IsValid attempt_id (err k m) ledger fits valid = valid
finish-IsValid attempt_id (ok final) ledger fits valid =
    transition-IsValid attempt_id final ledger (fits final refl) valid

pub complete-IsValid :
    (attempt_id : Text) (digest outcome reason : Value) (ledger : Ledger)
    → IsValid ledger.events
    → IsValid (complete attempt_id digest outcome reason ledger).1.events
unfolding complete
complete-IsValid attempt_id digest outcome reason ledger valid =
    finish-IsValid attempt_id (completed_final digest outcome reason) ledger
      (completed_final-IsFinal digest outcome reason) valid

pub mark_unknown-IsValid :
    (attempt_id : Text) (reason digest : Value) (ledger : Ledger)
    → IsValid ledger.events
    → IsValid (mark_unknown attempt_id reason digest ledger).1.events
unfolding mark_unknown
mark_unknown-IsValid attempt_id reason digest ledger valid =
    finish-IsValid attempt_id (unknown_final reason digest) ledger
      (unknown_final-IsFinal reason digest) valid
