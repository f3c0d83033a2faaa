-- ===== src/Publication/OnlyOnce.antt =====
-- How often the endpoint is asked to publish, over any sequence of calls on one journal.
use agent00x.Prelude.{ℕ, ◌≤◌, Bool, Option, [], refl, arith, Outcome}
use agent00x.Clock.{DateTime}
use agent00x.Host.{Host}
use agent00x.Publication.Counting.{
  mark_attempting-spent_le, cost_of, spent, set_status-spent, mark_completed-spent,
  record_verified-spent, prepare-spent,
}
use agent00x.Publication.Execution.{Endpoint, execute_publication, recover_publication}
use agent00x.Publication.Journal.{
  Journal, Status, mark_attempting, mark_reconciliation_required, prepare,
}
use agent00x.Publication.Payments.{counted, uncounted, Pays, execute-Pays, recover-Pays}
use agent00x.Publication.Receipts.{
  Receipt, mark_completed, mark_completed_from_reconciliation, record_verified_file_reconciliation,
}
use agent00x.Values.{Value}
use agent00x.Workflow.{Object}

module _ {E : Type 0} (host : Host) (endpoint : Endpoint E) where
  -- One call on the journal: by `execute_publication`, by `recover_publication`, or by whoever
  -- holds the journal.
  pub data Step (w : Journal × (ℕ × E)) : Journal × (ℕ × E) → Type 0 where
    prepares :
        (process_id key digest repository files : Value)
        → Step w ((prepare process_id key digest repository files w.0).1, w.1)
    executes :
        (before : Option (E → Outcome E (Unit {0}))) (crash : Bool) (request : Value)
        → Step w (execute_publication host (counted endpoint) (uncounted before) crash request w).1
    recovers : (v : Value) → Step w (recover_publication host (counted endpoint) v w).1
    starts : (v : Value) → Step w ((mark_attempting v w.0).1, w.1)
    gives_up : (v : Value) → Step w ((mark_reconciliation_required v w.0).1, w.1)
    completes :
        (v : Value) (receipt : Receipt) → Step w ((mark_completed host v receipt w.0).1, w.1)
    reconciles :
        (v : Value) (receipt : Receipt)
        → Step w ((mark_completed_from_reconciliation host v receipt w.0).1, w.1)
    records :
        (v manifest outcome commit : Value) (at : Object DateTime)
        → Step w
            ((record_verified_file_reconciliation host v manifest outcome commit at w.0).1, w.1)
    outside : (e : E) → Step w (w.0, (w.1.0, e))

  pub data Reach (e : E) : Journal × (ℕ × E) → Type 0 where
    start : Reach e ([], (0, e))
    next : {v w : Journal × (ℕ × E)} → Reach e v → Step v w → Reach e w

  Step-Pays : {v w : Journal × (ℕ × E)} → Step v w → Pays v w
  unfolding mark_reconciliation_required mark_completed mark_completed_from_reconciliation cost_of
  Step-Pays {v} (prepares p k d r f) = omega (arith, prepare-spent p k d r f v.0)
  Step-Pays {v} (executes before crash request) = execute-Pays host endpoint before crash request v
  Step-Pays {v} (recovers p) = recover-Pays host endpoint p v
  Step-Pays {v} (starts p) = omega (arith, mark_attempting-spent_le p v.0)
  Step-Pays {v} (gives_up p) =
      omega (arith, set_status-spent p Status.attempting Status.reconciliation_required v.0 refl)
  Step-Pays {v} (completes p receipt) =
      omega (arith, mark_completed-spent host p receipt Status.attempting v.0)
  Step-Pays {v} (reconciles p receipt) =
      omega (arith, mark_completed-spent host p receipt Status.reconciliation_required v.0)
  Step-Pays {v} (records p m o c at) = omega (arith, record_verified-spent host p m o c at v.0)
  Step-Pays {v} (outside e) = omega arith

  -- However preparations, executions, recoveries, status changes and changes outside of the journal
  -- follow each other on one journal, with crashes after the effect and answers of any kind, the
  -- endpoint has been asked to publish at most once for each attempt that is no longer `prepared`.
  pub Reach-paid : (e : E) {w : Journal × (ℕ × E)} → Reach e w → w.1.0 ≤ spent w.0
  unfolding spent
  Reach-paid e start = omega arith
  Reach-paid e (next r s) = omega (arith, Reach-paid e r, Step-Pays s)
