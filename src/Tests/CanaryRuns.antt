-- ===== src/Tests/CanaryRuns.antt =====
-- src/app_contracts/secret_scan.py on concrete inputs.
use mathlib.Core.List.{Memᴰ}
use agent00x.Prelude.{
  ℕ, zero, suc, Text, text, member_text, starts_with, contains_text, Bool, true, false, some, List,
  [], ◌∷◌, Result, ok, ◌≡◌, refl, ◌↔◌,
}
use agent00x.Canary.{
  contains_canary_bounded, find_canary_surfaces, canary_encoded, any_unnamed, findings, is_finding,
  start, scan, pop, visit, leave, leave_container, is_active, removed, inspect, after_leaf,
  after_container, entries, string_keys, is_string, frames,
}
use agent00x.Canary.Absence.{find_canary_surfaces-IsClear}
use agent00x.Canary.Leaves.{
  Object, no_object, boolean, string, sequence, mapping, Heap, scan_string, encoded, counted,
  printed, scan_printed,
}
use agent00x.Canary.Paths.{IsClear, Occurs}
use agent00x.Canary.Termination.{contains_canary_bounded-returns}
use agent00x.Canary.Verdicts.{contains_canary_bounded_iff}
use agent00x.Digests.Encoding.{utf8}

-- A dict at 0 that holds a list with a text, a list at 5 that holds itself, and one with the canary.
abbrev objects : List Object
objects =
    mapping ((1, 2) ∷ [])
    ∷ string (text "key")
    ∷ sequence (3 ∷ 4 ∷ 3 ∷ [])
    ∷ string (text "harmless")
    ∷ boolean true
    ∷ sequence (5 ∷ [])
    ∷ sequence (4 ∷ 7 ∷ [])
    ∷ string (text "a canary-1 in it")
    ∷ []

abbrev at : List Object → Heap
at [] a = no_object
at (o ∷ os) zero = o
at (o ∷ os) (suc a) = at os a

abbrev heap : Heap
heap = at objects

abbrev canary : Text
canary = text "canary-1"

abbrev surfaces : List (Text × ℕ)
surfaces = (text "plain", 0) ∷ (text "cyclic", 5) ∷ (text "leaking", 6) ∷ []

abbrev reported : List Text
reported = text "cyclic" ∷ text "leaking" ∷ []

found : find_canary_surfaces heap canary surfaces ≡ ok reported
unfolding find_canary_surfaces canary_encoded any_unnamed findings is_finding
    contains_canary_bounded start scan pop visit leave leave_container is_active removed inspect
    after_leaf after_container scan_string encoded counted printed scan_printed entries string_keys
    is_string frames contains_text starts_with utf8 text
found = refl

unreported : member_text (text "plain") reported ≡ false
unfolding member_text text
unreported = refl

find_canary_surfaces-IsClear_example :
    (canary_bytes : List ℕ) × (utf8 canary ≡ some canary_bytes)
    × IsClear heap canary canary_bytes 0 0
find_canary_surfaces-IsClear_example =
    find_canary_surfaces-IsClear heap canary surfaces reported (text "plain") 0 found
      (Memᴰ.head refl) unreported

finds : contains_canary_bounded heap canary canary 6 ≡ some (ok true)
unfolding contains_canary_bounded start scan pop visit leave leave_container is_active removed
    inspect after_leaf after_container scan_string encoded counted printed scan_printed entries
    string_keys is_string frames contains_text starts_with utf8 text
finds = refl

contains_canary_bounded_iff_example : (true ≡ true) ↔ Occurs heap canary canary 0 6
contains_canary_bounded_iff_example = contains_canary_bounded_iff heap canary canary 6 true finds

contains_canary_bounded-returns_example :
    (r : Result Bool) × (contains_canary_bounded heap canary canary 5 ≡ some r)
contains_canary_bounded-returns_example = contains_canary_bounded-returns heap canary canary 5
