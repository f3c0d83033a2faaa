-- ===== src/Observation/Dispatch.antt =====
-- src/app_contracts/observation_store.py: `run_gated_dispatch`, which starts an effect only after its
-- checkpoint and its intent are recorded.
use agent00x.Prelude.{
  ℕ, Text, text, Bool, true, false, Option, none, some, ◌++◌, Kind, Result, ok, err, if◌then◌else◌,
  Outcome,
}
use agent00x.Host.{Host}
use agent00x.Observation.Memory.{MemoryStore, append, record_checkpoint, record_once_in_memory}
use agent00x.Observation.Pairs.{record_pair, record_once}
use agent00x.Observation.Sqlite.{SqliteStore, append_row, record_checkpoint_row}
use agent00x.Values.{Value}

-- The methods of a store that the gate calls; `none` for one that the store has not.
pub record Journal (S : Type 0) : Type 0 where
  pub append_event : Value → S → Outcome S ℕ
  pub save_checkpoint : Value → S → Outcome S ℕ
  pub save_pair : Option (Value → Value → S → Outcome S ℕ)
  pub save_once : Option (Value → Value → S → Outcome S ℕ)

-- `except (ContractValidationError, EventConflictError, ObservationStoreError)`
unfoldable pub is_refusal : Kind → Bool
is_refusal Kind.contract_validation = true
is_refusal Kind.event_conflict = true
is_refusal Kind.store_error = true
is_refusal _ = false

unfoldable pub refused {ℓ} : {A : Type ℓ} → Kind → Text → Result A
unfolding is_refusal
refused k m =
    if is_refusal k
    then err Kind.pre_dispatch (text "pre-dispatch gate refused: " ++ m)
    else err k m

module _ {S : Type 0} where
  -- `store.record_checkpoint(checkpoint)` and then `store.append(intent_event)`
  unfoldable pub append_next : Journal S → Value → Outcome S ℕ → Outcome S ℕ
  append_next store intent (err k m, s) = (err k m, s)
  append_next store intent (ok _, s) = store.append_event intent s

  unfoldable pub persist : Journal S → Bool → Value → Value → S → Outcome S ℕ
  unfolding append_next
  persist store once checkpoint intent s =
      if once
      then (elim (store.save_once) [
        | none ↦ (err Kind.store_error (text "one-shot journal insertion unavailable"), s)
        | some save ↦ save checkpoint intent s
      ])
      else (elim (store.save_pair) [
        | none ↦ append_next store intent (store.save_checkpoint checkpoint s)
        | some save ↦ save checkpoint intent s
      ])

module _ {E A : Type 0} where
  -- A one-shot effect is started within the `try`, so that its own refusals are converted too.
  unfoldable pub returned : Bool → ℕ → Outcome E A → Outcome E (ℕ × A)
  unfolding refused
  returned once cursor (ok a, e) = (ok (cursor, a), e)
  returned once cursor (err k m, e) = (if once then refused k m else err k m, e)

  -- After the callback.
  unfoldable pub dispatched :
      Bool → ℕ → (E → Outcome E A) → Outcome E (Unit {0}) → Outcome E (ℕ × A)
  unfolding refused returned
  dispatched once cursor dispatch (err k m, e) = (refused k m, e)
  dispatched once cursor dispatch (ok _, e) = returned once cursor (dispatch e)

module _ {S E A : Type 0} where
  -- After the records: the callback, if there is one, and the effect.
  unfoldable pub then_dispatch :
      Bool
      → (ℕ → E → Outcome E (Unit {0}))
      → (E → Outcome E A)
      → E
      → Outcome S ℕ
      → Outcome (S × E) (ℕ × A)
  unfolding refused dispatched
  then_dispatch once callback dispatch e (err k m, s) = (refused k m, (s, e))
  then_dispatch once callback dispatch e (ok cursor, s) =
      let (result, e') = dispatched once cursor dispatch (callback cursor e) in (result, (s, e'))

  -- `run_gated_dispatch`; no callback is one that does nothing
  unfoldable pub run_gated_dispatch :
      Journal S
      → Bool
      → Value
      → Value
      → (ℕ → E → Outcome E (Unit {0}))
      → (E → Outcome E A)
      → S × E
      → Outcome (S × E) (ℕ × A)
  unfolding persist then_dispatch
  run_gated_dispatch store once checkpoint intent callback dispatch (s, e) =
      then_dispatch once callback dispatch e (persist store once checkpoint intent s)

module _ (host : Host) (re_search : Text → Text → Bool) where
  abbrev pub memory_journal : Journal MemoryStore
  memory_journal = record {
    append_event = append host re_search;
    save_checkpoint = record_checkpoint host re_search;
    save_pair = none;
    save_once = some (record_once_in_memory host re_search);
  }

  abbrev pub sqlite_journal : Journal SqliteStore
  sqlite_journal = record {
    append_event = append_row host re_search;
    save_checkpoint = record_checkpoint_row host re_search;
    save_pair = some (record_pair host re_search);
    save_once = some (record_once host re_search);
  }
