-- ===== src/Tests/LedgerRuns.antt =====
-- src/app_contracts/r5_attempt_ledger.py on concrete inputs.
use agent00x.Prelude.{Text, text, true, false, [], Kind, ok, err, ◌≡◌, refl}
use agent00x.Ledger.{Ledger, claim, complete, events_of}
use agent00x.Ledger.NoRepeat.{done, more, claims, completes, Steps-IsValid, claim-once}
use agent00x.Ledger.Opening.{create, is_attempt_id}
use agent00x.Ledger.Reading.{valid_history}
use agent00x.Ledger.Words.{first_five}
use agent00x.Values.{Value, str}

abbrev first_id : Text
first_id = text "R5-001"

abbrev input_digest : Value
input_digest = str (text "sha256:aaaaaaaaaaaaaaaaaaaaaaaaaaaaaaaaaaaaaaaaaaaaaaaaaaaaaaaaaaaaaaaa")

abbrev other_digest : Value
other_digest = str (text "sha256:bbbbbbbbbbbbbbbbbbbbbbbbbbbbbbbbbbbbbbbbbbbbbbbbbbbbbbbbbbbbbbbb")

abbrev new_ledger : Ledger
new_ledger = record {
  allowed_attempt_ids = first_five;
  attempts = first_five;
  events = [];
  closed = false;
}

created : create first_five ≡ ok new_ledger
unfolding create text
created = refl

claim_returns : (claim first_id input_digest new_ledger).0 ≡ ok tt
unfolding claim text
claim_returns = refl

Steps-IsValid_example :
    valid_history (
      events_of first_id
        (complete first_id other_digest
          (str (text "verified"))
          (str (text "none"))
          (claim first_id input_digest new_ledger).1).1.events)
    ≡ true
Steps-IsValid_example =
    Steps-IsValid first_five created
      (more (more done (claims first_id input_digest))
        (completes first_id other_digest (str (text "verified")) (str (text "none"))))
      first_id

claim-once_example :
    (k : Kind) × (message : Text) × (claim first_id other_digest
        (complete first_id other_digest
          (str (text "failed"))
          (str (text "execution-failed"))
          (claim first_id input_digest new_ledger).1).1
      ≡ (
        err k message,
        (complete first_id other_digest
            (str (text "failed"))
            (str (text "execution-failed"))
            (claim first_id input_digest new_ledger).1).1,
      ))
claim-once_example =
    claim-once first_id input_digest new_ledger claim_returns
      (more done
        (completes first_id other_digest (str (text "failed")) (str (text "execution-failed"))))
      other_digest

-- The identifiers run from 001 to 100.
hundred_is_last :
    (is_attempt_id (text "R5-100") ≡ true)
    × (is_attempt_id (text "R5-101") ≡ false)
    × (is_attempt_id (text "R5-000") ≡ false)
unfolding is_attempt_id text
hundred_is_last = (refl, refl, refl)
