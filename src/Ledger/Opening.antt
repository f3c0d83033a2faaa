-- ===== src/Ledger/Opening.antt =====
-- Creating and extending a ledger.
use agent00x.Prelude.{
  ℕ, ◌+◌, ◌-◌, ◌*◌, Text, text, text_eq, member_text, starts_with, Bool, true, false, ◌&&◌, ◌||◌,
  not, List, [], ◌∷◌, ◌++◌, Kind, Result, ok, err, raise_if, ◌>>=◌, ◌>>◌, ltb, leb, ◌==◌, length,
  Outcome,
}
use agent00x.Ledger.{Ledger, ensure_open}
use agent00x.Ledger.Words.{first_five}

is_digit : ℕ → Bool
is_digit c = leb 48 c && leb c 57

-- `int(value[3:])` of three digits
unfoldable pub attempt_number : Text → ℕ
attempt_number (r ∷ five ∷ dash ∷ a ∷ b ∷ c ∷ []) = (a - 48) * 100 + ((b - 48) * 10 + (c - 48))
attempt_number _ = 0

three_digits : Text → Bool
unfolding is_digit
three_digits (r ∷ five ∷ dash ∷ a ∷ b ∷ c ∷ []) = is_digit a && (is_digit b && is_digit c)
three_digits _ = false

-- `_ATTEMPT_ID.fullmatch`: the digits spell a number from 1 to 100.
unfoldable pub is_attempt_id : Text → Bool
unfolding starts_with three_digits attempt_number
is_attempt_id s =
    starts_with (text "R5-") s
    && (three_digits s && (leb 1 (attempt_number s) && leb (attempt_number s) 100))

unfoldable pub all_attempt_ids : List Text → Bool
unfolding is_attempt_id
all_attempt_ids [] = true
all_attempt_ids (s ∷ ss) = is_attempt_id s && all_attempt_ids ss

unfoldable pub no_repeats : List Text → Bool
unfolding member_text
no_repeats [] = true
no_repeats (s ∷ ss) = not (member_text s ss) && no_repeats ss

-- A list that `sorted(…, key=number)` keeps: it is stable.
unfoldable pub in_order : List Text → Bool
unfolding attempt_number
in_order [] = true
in_order (s ∷ []) = true
in_order (s ∷ t ∷ ss) = leb (attempt_number s) (attempt_number t) && in_order (t ∷ ss)

unfoldable pub list_rejected : Bool → Result (Unit {0})
list_rejected t = raise_if t Kind.ledger_error (text "R5 attempt ledger: attempt list rejected")

is_empty_list : List Text → Bool
is_empty_list [] = true
is_empty_list (_ ∷ _) = false

-- `_validate_attempt_ids` on a tuple of `str`
unfoldable pub validate_attempt_ids : List Text → Result (List Text)
unfolding all_attempt_ids no_repeats in_order list_rejected is_empty_list
validate_attempt_ids values = do
  list_rejected (is_empty_list values || ltb 100 (length values))
  list_rejected (not (all_attempt_ids values))
  list_rejected (not (no_repeats values))
  list_rejected (not (in_order values))
  ok values

unfoldable pub same_texts : List Text → List Text → Bool
unfolding text_eq
same_texts [] [] = true
same_texts (s ∷ ss) (t ∷ ts) = text_eq s t && same_texts ss ts
same_texts _ _ = false

-- `SQLiteR5AttemptLedger.create`
unfoldable pub create : List Text → Result Ledger
unfolding validate_attempt_ids same_texts list_rejected
create allowed_attempt_ids = do
  attempts ← validate_attempt_ids allowed_attempt_ids
  list_rejected (not (same_texts attempts first_five))
  ok record { allowed_attempt_ids = attempts; attempts = attempts; events = []; closed = false }

unfoldable pub share : List Text → List Text → Bool
unfolding member_text
share [] ts = false
share (s ∷ ss) ts = member_text s ts || share ss ts

last_number : List Text → ℕ
unfolding attempt_number
last_number [] = 0
last_number (s ∷ []) = attempt_number s
last_number (s ∷ t ∷ ss) = last_number (t ∷ ss)

first_number : List Text → ℕ
unfolding attempt_number
first_number [] = 0
first_number (s ∷ ss) = attempt_number s

subset : List Text → List Text → Bool
unfolding member_text
subset [] ts = true
subset (s ∷ ss) ts = member_text s ts && subset ss ts

-- The table of attempts holds the scheduled attempts: both have no repeats.
unfoldable pub same_attempts : List Text → List Text → Bool
unfolding subset
same_attempts actual validated =
    subset actual validated && (subset validated actual && length actual == length validated)

extension_rejected : Bool → Result (Unit {0})
extension_rejected t = raise_if t Kind.ledger_error (text "R5 attempt ledger: extension rejected")

-- The transaction of `extend_allowed_attempt_ids`, up to its writes.
unfoldable pub extension : List Text → Ledger → Result (List Text)
unfolding validate_attempt_ids share in_order first_number last_number same_attempts
    extension_rejected
extension additions ledger = do
  current ← validate_attempt_ids ledger.allowed_attempt_ids
  extension_rejected (share current additions)
  extension_rejected
      (not (in_order additions) || leb (first_number additions) (last_number current))
  extension_rejected (not (in_order (current ++ additions)))
  extension_rejected (not (same_attempts ledger.attempts current))
  ok (current ++ additions)

unfoldable pub extend_to : List Text → Ledger → Result (List Text) → Outcome Ledger (List Text)
extend_to additions ledger (err k m) =
    (err Kind.ledger_error (text "R5 attempt ledger: extension rejected"), ledger)
extend_to additions ledger (ok updated) = (
  ok updated,
  record ledger { allowed_attempt_ids = updated; attempts = ledger.attempts ++ additions },
)

unfoldable pub extension_checks : List Text → Ledger → Result (List Text)
unfolding validate_attempt_ids ensure_open
extension_checks additional_ids ledger = do
  additions ← validate_attempt_ids additional_ids
  ensure_open ledger
  ok additions

-- `extend_allowed_attempt_ids`
unfoldable pub extend_allowed_attempt_ids : List Text → Ledger → Outcome Ledger (List Text)
unfolding extension_checks extension extend_to
extend_allowed_attempt_ids additional_ids ledger = elim (extension_checks additional_ids ledger) [
  | err k m ↦ (err k m, ledger)
  | ok additions ↦ extend_to additions ledger (extension additions ledger)
]
