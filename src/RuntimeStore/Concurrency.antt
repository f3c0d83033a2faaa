-- ===== src/RuntimeStore/Concurrency.antt =====
-- Several connections on one database: each `advance` is a read and, later, a write.
use agent00x.Prelude.{
  ℕ, Text, text_eq, ◌≡◌, ◌⊎◌, inl, inr, Option, List, [], ◌∷◌, ok, Bool-cases, All,
}
use agent00x.RuntimeSchema.{ProcessEvent, Db, events_of, DateTime, empty_db}
use agent00x.RuntimeStore.{Plan, create, commit_plan, plan}
use agent00x.RuntimeStore.Creation.{create-cases, create-IsValid}
use agent00x.RuntimeStore.History.{IsValid, LoggedAt, Fits}
use agent00x.RuntimeStore.Invariant.{commit_plan-cases, commit_plan-IsValid, empty_db-IsValid}
use agent00x.RuntimeStore.Reads.{plan-Fits}
use agent00x.Tables.{select-cons}
use agent00x.Values.{Value}
use agent00x.Workflow.{ProcessState, Object, TransitionEvidence}

-- The database, and the plans that connections have made of it.
pub record World : Type 0 where
  pub db : Db
  pub pending : List Plan

abbrev pub start : World
start = record { db = empty_db; pending = [] }

abbrev pub IsPending : Plan → List Plan → Type 0
IsPending p [] = ⊥
IsPending p (q ∷ qs) = (p ≡ q) ⊎ IsPending p qs

-- A connection creates a process, makes a plan, or writes one that was made at any time before.
pub data Step (w : World) : World → Type 0 where
  creates :
      (clock : ℕ) (v : Value) (now : Option (Object DateTime))
      → Step w (record w { db = (create clock v now w.db).1 })
  reads :
      (clock : ℕ) (v : Value) (target : Object ProcessState) (evidence : Object TransitionEvidence)
      (expected : Value) (now : Option (Object DateTime)) (p : Plan)
      → plan clock v target evidence expected now w.db ≡ ok p
      → Step w (record w { pending = p ∷ w.pending })
  writes : (p : Plan) → IsPending p w.pending → Step w (record w { db = (commit_plan p w.db).1 })

pub data Reach : World → Type 0 where
  here : Reach start
  next : {v w : World} → Reach v → Step v w → Reach w

-- The log of each process only grows.
abbrev Grows : Db → Db → Type 0
Grows db db' =
    (pid : Text) (n : ℕ) (t : ProcessState)
    → LoggedAt n t (events_of pid db.process_events)
    → LoggedAt n t (events_of pid db'.process_events)

Grows-cons :
    (pid : Text) (e : ProcessEvent) (es : List ProcessEvent) (n : ℕ) (t : ProcessState)
    → LoggedAt n t (events_of pid es)
    → LoggedAt n t (events_of pid (e ∷ es))
Grows-cons pid e es n t h = elim (Bool-cases (text_eq e.process_id pid)) [
  | inl own ↦ rw (select-cons, own) (inr h)
  | inr other ↦ rw (select-cons, other) h
]

create-Grows :
    (db : Db)
    → IsValid db
    → (clock : ℕ) (v : Value) (now : Option (Object DateTime)) → Grows db (create clock v now db).1
create-Grows db valid clock v now pid n t h = elim (create-cases db valid clock v now) [
  | inl same ↦ rw same h
  | inr (j, at, missing, after) ↦ rw after (Grows-cons pid _ db.process_events n t h)
]

commit_plan-Grows : (p : Plan) (db : Db) → IsValid db → Fits p db → Grows db (commit_plan p db).1
commit_plan-Grows p db valid fits pid n t h = elim (commit_plan-cases p db valid fits) [
  | inl (row, found, same, w, after) ↦ rw after (Grows-cons pid _ db.process_events n t h)
  | inr refused ↦ rw refused h
]

Fits-Grows : (p : Plan) (db db' : Db) → Grows db db' → Fits p db → Fits p db'
Fits-Grows p db db' g f = record {
  logged = g _ _ _ f.logged;
  proof = f.proof;
  recorded = f.recorded;
  accepted = f.accepted;
}

abbrev AllFit : Db → List Plan → Type 0
AllFit db = All (λ p. Fits p db)

AllFit-Grows : (db db' : Db) (ps : List Plan) → Grows db db' → AllFit db ps → AllFit db' ps
AllFit-Grows db db' [] g h = tt
AllFit-Grows db db' (p ∷ ps) g h = (Fits-Grows p db db' g h.0, AllFit-Grows db db' ps g h.1)

AllFit-pending : (p : Plan) (db : Db) (ps : List Plan) → AllFit db ps → IsPending p ps → Fits p db
AllFit-pending p db [] h m = elim m [ ]
AllFit-pending p db (q ∷ ps) h (inl e) = rw e h.0
AllFit-pending p db (q ∷ ps) h (inr m) = AllFit-pending p db ps h.1 m

pub record IsSound (w : World) : Type 0 where
  pub valid : IsValid w.db
  pub fitting : AllFit w.db w.pending

Step-IsSound : {v w : World} → Step v w → IsSound v → IsSound w
Step-IsSound {v} (creates clock x now) h = record {
  valid = create-IsValid v.db h.valid clock x now;
  fitting = AllFit-Grows _ _ v.pending (create-Grows v.db h.valid clock x now) h.fitting;
}
Step-IsSound {v} (reads clock x target evidence expected now p made) h = record {
  valid = h.valid;
  fitting = (plan-Fits clock x target evidence expected now v.db p h.valid made, h.fitting);
}
Step-IsSound {v} (writes p m) h =
    let fits = AllFit-pending p v.db v.pending h.fitting m in
    record {
      valid = commit_plan-IsValid p v.db h.valid fits;
      fitting = AllFit-Grows _ _ v.pending (commit_plan-Grows p v.db h.valid fits) h.fitting;
    }

-- Whatever the interleaving of creations, reads and writes, every row stands at the end of its
-- process's chain of accepted transitions, and every plan in flight fits the log.
pub Reach-IsSound : {w : World} → Reach w → IsSound w
Reach-IsSound here = record { valid = empty_db-IsValid; fitting = tt }
Reach-IsSound (next r s) = Step-IsSound s (Reach-IsSound r)
