-- ===== src/Ledger/NoRepeat.antt =====
-- The life of a ledger: its histories stay valid, and an attempt is claimed once.
use mathlib.Core.Path.{subst}
use agent00x.Prelude.{
  or_raise, text_eq_refl, Bool-cases, Result-cases, inl, inr, sym, ap, ◌∙◌, ok_injective, not-false,
  Text, text, text_eq, not, Option, none, some, List, [], ◌∷◌, Kind, Result, ok, err, ◌≡◌, ◌≢◌,
  refl, bind_returns, raise_if_passes, Outcome,
}
use agent00x.Ledger.{
  Ledger, AttemptEvent, attempt_of, events_of, ensure_open, claimable, claim, claim_checks,
  claim_event, append, open_claim, Final, final_event, write_final, transition, completed_final,
  unknown_final, finish, complete, mark_unknown, close, validate_digest,
}
use agent00x.Ledger.Opening.{
  validate_attempt_ids, list_rejected, same_texts, create, extend_allowed_attempt_ids, extension,
  extension_checks, extend_to,
}
use agent00x.Ledger.Reading.{valid_history, open_existing, validate_existing}
use agent00x.Ledger.Soundness.{
  claimable-empty, IsValid, claim-IsValid, complete-IsValid, mark_unknown-IsValid,
}
use agent00x.Ledger.Words.{first_five}
use agent00x.Tables.{select, select-cons}
use agent00x.Values.{Value}

-- One call on an open ledger, or closing it and opening its file again.
pub data Step (l : Ledger) : Ledger → Type 0 where
  claims : (attempt_id : Text) (digest : Value) → Step l (claim attempt_id digest l).1
  completes :
      (attempt_id : Text) (digest outcome reason : Value)
      → Step l (complete attempt_id digest outcome reason l).1
  marks :
      (attempt_id : Text) (reason digest : Value)
      → Step l (mark_unknown attempt_id reason digest l).1
  extends : (ids : List Text) → Step l (extend_allowed_attempt_ids ids l).1
  closes : Step l (close l)
  reopens : (again : Ledger) → open_existing l ≡ ok again → Step l again

pub data Steps (l : Ledger) : Ledger → Type 0 where
  done : Steps l l
  more : {m n : Ledger} → Steps l m → Step m n → Steps l n

extend_to-events :
    (ids : List Text) (l : Ledger) (r : Result (List Text))
    → (extend_to ids l r).1.events ≡ l.events
unfolding extend_to
extend_to-events ids l (ok us) = refl
extend_to-events ids l (err k m) = refl

extend-events :
    (ids : List Text) (l : Ledger) → (extend_allowed_attempt_ids ids l).1.events ≡ l.events
unfolding extend_allowed_attempt_ids
extend-events ids l = elim (Result-cases (extension_checks ids l)) [
  | inl checked ↦
      rw (extend_allowed_attempt_ids, checked.1)
        (extend_to-events checked.0 l (extension checked.0 l))
  | inr raised ↦ let (k, m, e) = raised in rw (extend_allowed_attempt_ids, e) refl
]

open_existing-events : (l again : Ledger) → open_existing l ≡ ok again → again.events ≡ l.events
unfolding open_existing
open_existing-events l again h =
    let (_, valid, h1) = bind_returns (or_raise (validate_existing l) _ _) _ h in
    ap (λ (m : Ledger). m.events) (sym (ok_injective _ _ h1))

Step-IsValid : {l m : Ledger} → Step l m → IsValid l.events → IsValid m.events
unfolding close
Step-IsValid {l} (claims a d) v = claim-IsValid a d l v
Step-IsValid {l} (completes a d o r) v = complete-IsValid a d o r l v
Step-IsValid {l} (marks a r d) v = mark_unknown-IsValid a r d l v
Step-IsValid {l} (extends ids) v = subst IsValid (sym (extend-events ids l)) v
Step-IsValid closes v = v
Step-IsValid {l} (reopens again h) v = subst IsValid (sym (open_existing-events l again h)) v

create-events : (ids : List Text) (l : Ledger) → create ids ≡ ok l → l.events ≡ []
unfolding create
create-events ids l h =
    let (attempts, checked, h1) = bind_returns (validate_attempt_ids ids) _ h in
    let (_, first, h2) = bind_returns (list_rejected (not (same_texts attempts first_five))) _ h1 in
    ap (λ (m : Ledger). m.events) (sym (ok_injective _ _ h2))

create-IsValid : (ids : List Text) (l : Ledger) → create ids ≡ ok l → IsValid l.events
unfolding select valid_history
create-IsValid ids l h = subst IsValid (sym (create-events ids l h)) (λ attempt_id. refl)

-- Whatever is called on a new ledger, the history of each attempt is empty, or a claim with a
-- digest and no result, or that claim and one end with the same input digest, whose columns fit
-- its state: what `open_existing` asks of every history that it reads.
pub Steps-IsValid :
    (ids : List Text) {l m : Ledger} → create ids ≡ ok l → Steps l m → IsValid m.events
Steps-IsValid ids {l} h done = create-IsValid ids l h
Steps-IsValid ids h (more p s) = Step-IsValid s (Steps-IsValid ids h p)

-- The attempt has an event.
abbrev pub IsSpent : Text → List AttemptEvent → Type 0
IsSpent attempt_id events = events_of attempt_id events ≢ []

append-IsSpent :
    (attempt_id : Text) (event : AttemptEvent) (events : List AttemptEvent)
    → IsSpent attempt_id events
    → IsSpent attempt_id (event ∷ events)
append-IsSpent attempt_id event events spent e =
    elim (Bool-cases (text_eq event.attempt_id attempt_id)) [
      | inl own ↦
          filled {es = events_of attempt_id events}
            (sym (select-cons attempt_of attempt_id event events ∙ rw own refl) ∙ e)
      | inr other ↦ spent (sym (select-cons attempt_of attempt_id event events ∙ rw other refl) ∙ e)
    ]
  where
    filled : {es : List AttemptEvent} → (event ∷ es) ≡ [] → ⊥
    filled h = cc

claim-IsSpent :
    (a attempt_id : Text) (digest : Value) (l : Ledger)
    → IsSpent a l.events
    → IsSpent a (claim attempt_id digest l).1.events
unfolding claim append
claim-IsSpent a attempt_id digest l spent = elim (Result-cases (claim_checks attempt_id digest l)) [
  | inl checked ↦
      rw (claim, checked.1) (append-IsSpent a (claim_event attempt_id checked.0) l.events spent)
  | inr raised ↦ let (k, m, e) = raised in rw (claim, e) spent
]

write_final-IsSpent :
    (a attempt_id : Text) (found : Option AttemptEvent) (final : Final) (l : Ledger)
    → IsSpent a l.events
    → IsSpent a (write_final attempt_id found final l).1.events
unfolding write_final append
write_final-IsSpent a attempt_id none final l spent = spent
write_final-IsSpent a attempt_id (some last) final l spent =
    append-IsSpent a (final_event attempt_id last final) l.events spent

finish-IsSpent :
    (a attempt_id : Text) (checked : Result Final) (l : Ledger)
    → IsSpent a l.events
    → IsSpent a (finish attempt_id checked l).1.events
unfolding finish transition
finish-IsSpent a attempt_id (err k m) l spent = spent
finish-IsSpent a attempt_id (ok final) l spent = elim (Result-cases (ensure_open l)) [
  | inl opened ↦
      rw (transition, opened.1)
        (write_final-IsSpent a attempt_id (open_claim (events_of attempt_id l.events)) final l
          spent)
  | inr raised ↦ let (k, m, e) = raised in rw (transition, e) spent
]

Step-IsSpent : (a : Text) {l m : Ledger} → Step l m → IsSpent a l.events → IsSpent a m.events
unfolding close complete mark_unknown
Step-IsSpent a {l} (claims b d) s = claim-IsSpent a b d l s
Step-IsSpent a {l} (completes b d o r) s = finish-IsSpent a b (completed_final d o r) l s
Step-IsSpent a {l} (marks b r d) s = finish-IsSpent a b (unknown_final r d) l s
Step-IsSpent a {l} (extends ids) s = subst (IsSpent a) (sym (extend-events ids l)) s
Step-IsSpent a closes s = s
Step-IsSpent a {l} (reopens again h) s = subst (IsSpent a) (sym (open_existing-events l again h)) s

Steps-IsSpent : (a : Text) {l m : Ledger} → Steps l m → IsSpent a l.events → IsSpent a m.events
Steps-IsSpent a done s = s
Steps-IsSpent a (more p q) s = Step-IsSpent a q (Steps-IsSpent a p s)

claim_checks-unspent :
    (a : Text) (digest : Value) (l : Ledger) (d : Text)
    → claim_checks a digest l ≡ ok d
    → events_of a l.events ≡ []
unfolding claim_checks
claim_checks-unspent a digest l d h =
    let (d', checked, h1) = bind_returns (validate_digest digest) _ h in
    let (_, opened, h2) = bind_returns (ensure_open l) _ h1 in
    let (free, h3) =
      raise_if_passes (not (claimable a l)) Kind.ledger_error
        (text "R5 attempt ledger: claim unavailable") _ h2 in
    claimable-empty a l (not-false free)

new_event : (a d : Text) (events : List AttemptEvent) → IsSpent a (claim_event a d ∷ events)
new_event a d events e =
    filled {es = events_of a events}
      (sym (select-cons attempt_of a (claim_event a d) events ∙ rw (text_eq_refl a) refl) ∙ e)
  where
    filled : {es : List AttemptEvent} → (claim_event a d ∷ es) ≡ [] → ⊥
    filled h = cc

never : {k : Kind} {m : Text} → (err k m ≡ ok (tt {0})) → ⊥
never e = cc

claim-spends :
    (a : Text) (digest : Value) (l : Ledger)
    → (claim a digest l).0 ≡ ok tt
    → IsSpent a (claim a digest l).1.events
unfolding claim append
claim-spends a digest l h = elim (Result-cases (claim_checks a digest l)) [
  | inl checked ↦ rw (claim, checked.1) (new_event a checked.0 l.events)
  | inr raised ↦
      let (k, m, e) = raised in
      λ _. never (sym (ap (λ (o : Outcome Ledger (Unit {0})). o.0) (refused k m e)) ∙ h)
]
  where
    refused :
        (k : Kind) (m : Text) → claim_checks a digest l ≡ err k m → claim a digest l ≡ (err k m, l)
    refused k m e = rw (claim, e) refl

-- An attempt whose claim returned is never claimed again: after any calls, extensions and
-- reopenings of the ledger, every further claim of it raises and leaves the ledger as it is.
pub claim-once :
    (a : Text) (digest : Value) (l : Ledger) {m : Ledger}
    → (claim a digest l).0 ≡ ok tt
    → Steps (claim a digest l).1 m
    → (again : Value) → (k : Kind) × (message : Text) × (claim a again m ≡ (err k message, m))
unfolding claim
claim-once a digest l {m} h p again = elim (Result-cases (claim_checks a again m)) [
  | inl checked ↦
      elim (Steps-IsSpent a p (claim-spends a digest l h)
        (claim_checks-unspent a again m checked.0 checked.1)) [ ]
  | inr raised ↦ let (k, message, e) = raised in (k, message, rw (claim, e) refl)
]
