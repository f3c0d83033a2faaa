-- ===== src/Publication/Promises.antt =====
-- What the journal promises over any sequence of calls.
use mathlib.Core.Path.{subst}
use agent00x.Prelude.{◌≤◌, inr, inl, ℕ, Text, Option, none, some, ◌≡◌, refl}
use agent00x.Host.{Host}
use agent00x.Publication.Execution.{Endpoint}
use agent00x.Publication.Histories.{execute-Later, recover-Later}
use agent00x.Publication.Journal.{PublicationRecord, Journal, Status, find_attempt}
use agent00x.Publication.Lifecycle.{
  Grown, Evolves, IsBacked, Evolves-IsBacked, Evolves-completed, SamePayload, Evolves-SamePayload,
  Later, Later-refl, Later-trans,
}
use agent00x.Publication.Matching.{Matches, check_receipt-Matches}
use agent00x.Publication.OnlyOnce.{
  Step, Reach, start, next, prepares, executes, recovers, starts, gives_up, completes, reconciles,
  records, outside,
}
use agent00x.Publication.Payments.{counted, uncounted}
use agent00x.Publication.Receipts.{mark_completed, mark_completed_from_reconciliation, PullRequest}
use agent00x.Publication.Updates.{
  mark_attempting-Later, mark_reconciliation_required-Later, complete_attempt-Later, record-Later,
  prepare-Later,
}
use agent00x.Tables.{find}
use agent00x.Values.{int, pos}

module _ {E : Type 0} (host : Host) (endpoint : Endpoint E) where
  Step-Later : {v w : Journal × (ℕ × E)} → Step host endpoint v w → Later host v.0 w.0
  unfolding mark_completed mark_completed_from_reconciliation
  Step-Later {v} (prepares p k d r f) = prepare-Later host p k d r f v.0
  Step-Later {v} (executes before crash request) =
      execute-Later host (counted endpoint) (uncounted before) crash request v
  Step-Later {v} (recovers p) = recover-Later host (counted endpoint) p v
  Step-Later {v} (starts p) = mark_attempting-Later host p v.0
  Step-Later {v} (gives_up p) = mark_reconciliation_required-Later host p v.0
  Step-Later {v} (completes p receipt) =
      complete_attempt-Later host p receipt Status.attempting v.0 (inl refl)
  Step-Later {v} (reconciles p receipt) =
      complete_attempt-Later host p receipt Status.reconciliation_required v.0 (inr refl)
  Step-Later {v} (records p m o c at) = record-Later host p m o c at v.0
  Step-Later {v} (outside e) = Later-refl host v.0

  -- Any number of calls.
  pub data Steps (v : Journal × (ℕ × E)) : Journal × (ℕ × E) → Type 0 where
    done : Steps v v
    more : {u w : Journal × (ℕ × E)} → Steps v u → Step host endpoint u w → Steps v w

  Steps-Later : {v w : Journal × (ℕ × E)} → Steps v w → Later host v.0 w.0
  Steps-Later {v} done = Later-refl host v.0
  Steps-Later (more p s) = Later-trans host _ _ _ (Steps-Later p) (Step-Later s)

  Grown-some :
      (row : PublicationRecord) (o : Option PublicationRecord)
      → Grown host (some row) o
      → (new : PublicationRecord) × (o ≡ some new) × Evolves host row new
  Grown-some row none p = elim p [ ]
  Grown-some row (some new) p = (new, refl, p)

  -- An attempt that is in the journal stays in it under its process, with the idempotency key, the
  -- request digest, the repository and the base branch that it was prepared with, and once it is
  -- completed no call of any kind changes its row.
  pub Steps-keep :
      {v w : Journal × (ℕ × E)}
      → Steps v w
      → (pid : Text) (row : PublicationRecord) → find_attempt pid v.0 ≡ some row
      → (new : PublicationRecord) × (find_attempt pid w.0 ≡ some new)
        × SamePayload host row new
        × (row.status ≡ Status.completed → new ≡ row)
  Steps-keep {v} {w} p pid row at =
      let (new, at', e) =
        Grown-some row (find_attempt pid w.0)
          (subst (λ o. Grown host o (find_attempt pid w.0)) at (Steps-Later p pid)) in
      (new, at', Evolves-SamePayload host e, Evolves-completed host e)

  abbrev IsBackedOrAbsent : Option PublicationRecord → Type 0
  IsBackedOrAbsent none = Unit
  IsBackedOrAbsent (some row) = IsBacked host row

  Grown-backed :
      (a b : Option PublicationRecord) → Grown host a b → IsBackedOrAbsent a → IsBackedOrAbsent b
  Grown-backed none none g p = tt
  Grown-backed none (some new) (fresh, was, e) p = Evolves-IsBacked host e (λ done. cc)
  Grown-backed (some row) none g p = tt
  Grown-backed (some row) (some new) g p = Evolves-IsBacked host g p

  Reach-backed :
      (e : E) {w : Journal × (ℕ × E)}
      → Reach host endpoint e w
      → (pid : Text) → IsBackedOrAbsent (find_attempt pid w.0)
  unfolding find
  Reach-backed e start pid = tt
  Reach-backed e (next r s) pid = Grown-backed _ _ (Step-Later s pid) (Reach-backed e r pid)

  -- Over any sequence of calls from an empty journal, a completed attempt carries the number, at
  -- least 1, of a pull request whose branch and digest spell, with the attempt's base branch, the
  -- attempt's idempotency key, and whose key, repository and base branch are the attempt's.
  pub Reach-receipted :
      (e : E) {w : Journal × (ℕ × E)} (pid : Text) (row : PublicationRecord)
      → Reach host endpoint e w
      → find_attempt pid w.0 ≡ some row
      → row.status ≡ Status.completed
      → (pull : PullRequest) × (number : ℕ) × (row.pull_request_id ≡ some number)
        × (pull.pull_request_id ≡ int (pos number))
        × (1 ≤ number)
        × Matches row pull
  Reach-receipted e pid row r at finished =
      let (receipt, receipted, checked, numbered, located) =
        subst IsBackedOrAbsent at (Reach-backed e r pid) finished in
      let (pull, number, positive, matched) =
        check_receipt-Matches host row receipt receipted checked in
      (pull, receipted.number, numbered, number, positive, matched)
