-- ===== src/RuntimeStore/Promises.antt =====
-- What the process store promises its callers.
use agent00x.Prelude.{Text, ◌≡◌, refl, sym, ◌∙◌, ◌≢◌, inl, inr, some, err, arith, Kind, text}
use agent00x.RuntimeSchema.{value_of, ProcessRow, Db, find_process, events_of}
use agent00x.RuntimeStore.{Plan, commit_plan}
use agent00x.RuntimeStore.Concurrency.{World, Reach, Reach-IsSound}
use agent00x.RuntimeStore.History.{
  IsValid, Fits, advanced, row_of_plan, Chain, Tracks, Chain-Run, value_of-injective,
}
use agent00x.RuntimeStore.Invariant.{commit_plan-cases, commit_plan-IsValid}
use agent00x.Tables.{find-replace_self, find-key}
use agent00x.Workflow.{completed}
use agent00x.Workflow.Evidence.{
  VerifiedSince, ApprovedSince, verified-VerifiedSince, effectful-ApprovedSince,
}

-- Whatever connections did, a process whose row says `completed` has in its event log, after its
-- last entry into `executing`, a passed verification and a valid approval.
pub completed-evidence :
    {w : World} (r : Reach w) (pid : Text) (row : ProcessRow)
    → find_process pid w.db.processes ≡ some row
    → row.state ≡ value_of completed
    → (chain : Chain (events_of pid w.db.process_events) row.version completed) × VerifiedSince
        (Chain-Run chain)
      × ApprovedSince (Chain-Run chain)
completed-evidence {w} r pid row found state =
    at_end (rw found at ((Reach-IsSound r).valid.tracks pid))
  where
    at_end :
        Tracks (some row) (events_of pid w.db.process_events)
        → (chain : Chain (events_of pid w.db.process_events) row.version completed) × VerifiedSince
            (Chain-Run chain)
          × ApprovedSince (Chain-Run chain)
    at_end (s, stored, chain) =
        let here : s ≡ completed = value_of-injective s completed (sym stored ∙ state) in
        let c = rw here at chain in
        (c, verified-VerifiedSince (Chain-Run c) refl, effectful-ApprovedSince (Chain-Run c) refl)

module _ (p : Plan) (db : Db) (row : ProcessRow) where
  row_after :
      find_process p.current.process_id db.processes ≡ some row
      → find_process p.current.process_id (advanced p row db).processes ≡ some (row_of_plan p row)
  row_after found =
      find-replace_self _ _ (row_of_plan p row) row db.processes
        (find-key (λ (r : ProcessRow). r.process_id) _ db.processes row found) found

same_version : {r s : ProcessRow} → some r ≡ some s → r.version ≡ s.version
same_version e = cc

-- Two plans for one process that read the same version cannot both be written: once the first has
-- changed the database, the second raises `VersionConflict` and changes nothing.
pub commit_plan-once :
    (p q : Plan) (db : Db)
    → IsValid db
    → Fits p db
    → Fits q (commit_plan p db).1
    → p.current.process_id ≡ q.current.process_id
    → p.current.version ≡ q.current.version
    → (commit_plan p db).1 ≢ db
    → commit_plan q (commit_plan p db).1
      ≡ (err Kind.version_conflict (text "concurrent update"), (commit_plan p db).1)
commit_plan-once p q db valid fp fq same_process versions changed =
    elim (commit_plan-cases p db valid fp) [
      | inr refused ↦ absurd (changed (rw refused))
      | inl (row, found, same, w, after) ↦
          elim (commit_plan-cases q (commit_plan p db).1 (commit_plan-IsValid p db valid fp) fq) [
            | inr refused ↦ refused
            | inl (row', found', same', w', after') ↦
                let f : find_process q.current.process_id (commit_plan p db).1.processes
                    ≡ some (row_of_plan p row) =
                  rw (after, ← same_process) (row_after p db row found) in
                let v = same_version (sym found' ∙ f) in absurd (omega arith)
          ]
    ]
