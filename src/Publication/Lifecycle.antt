-- ===== src/Publication/Lifecycle.antt =====
-- How a row of the journal may change: its states, and the receipts and evidence that each change needs.
use mathlib.Core.Path.{subst}
use agent00x.Prelude.{inl, inr, ◌⊎◌, ◌∙◌, ap, ℕ, Text, Option, none, some, ok, ◌≡◌, ◌≢◌, refl}
use agent00x.Clock.{DateTime}
use agent00x.Host.{Host}
use agent00x.Publication.Journal.{PublicationRecord, Journal, Status, find_attempt}
use agent00x.Publication.Receipts.{
  github, mock, Receipt, Receipted, completed_row, check_receipt, check_evidence, evidence_row,
}
use agent00x.Values.{Value}
use agent00x.Workflow.{Object}

module _ (host : Host) where
  -- One change of a row: it starts, its outcome is unknown, it completes with a receipt that matches,
  -- or evidence about the files is recorded.
  pub data RowStep (row : PublicationRecord) : PublicationRecord → Type 0 where
    starts : row.status ≡ Status.prepared → RowStep row (record row { status = Status.attempting })
    loses :
        row.status ≡ Status.attempting
        → RowStep row (record row { status = Status.reconciliation_required })
    finishes :
        (receipt : Receipt) (receipted : Receipted)
        → (row.status ≡ Status.attempting) ⊎ (row.status ≡ Status.reconciliation_required)
        → check_receipt host row receipt ≡ ok receipted
        → RowStep row (completed_row receipted row)
    records :
        (manifest outcome commit : Value) (at : Object DateTime) (moment : ℕ)
        → row.status ≡ Status.reconciliation_required
        → check_evidence host row manifest outcome commit at ≡ ok moment
        → RowStep row (evidence_row host manifest outcome commit moment row)

  pub data Evolves (row : PublicationRecord) : PublicationRecord → Type 0 where
    same : Evolves row row
    later : {now new : PublicationRecord} → Evolves row now → RowStep now new → Evolves row new

  pub Evolves-trans : {a b c : PublicationRecord} → Evolves a b → Evolves b c → Evolves a c
  Evolves-trans p same = p
  Evolves-trans p (later q s) = later (Evolves-trans p q) s

  -- What a process had in the journal and what it has later: nothing, or a row that was prepared in
  -- between, or its row, evolved.
  abbrev pub Grown : Option PublicationRecord → Option PublicationRecord → Type 0
  Grown none none = Unit
  Grown none (some new) =
      (fresh : PublicationRecord) × (fresh.status ≡ Status.prepared) × Evolves fresh new
  Grown (some row) none = ⊥
  Grown (some row) (some new) = Evolves row new

  pub Grown-refl : (o : Option PublicationRecord) → Grown o o
  Grown-refl none = tt
  Grown-refl (some row) = same

  pub Grown-at : (a b c d : Option PublicationRecord) → a ≡ c → b ≡ d → Grown a b → Grown c d
  Grown-at a b c d e f g = subst (λ x. Grown x d) e (subst (Grown a) f g)

  Grown-trans : (a b c : Option PublicationRecord) → Grown a b → Grown b c → Grown a c
  Grown-trans none none c p q = q
  Grown-trans none (some b) none p q = elim q [ ]
  Grown-trans none (some b) (some c) (fresh, was, p) q = (fresh, was, Evolves-trans p q)
  Grown-trans (some a) none c p q = elim p [ ]
  Grown-trans (some a) (some b) none p q = elim q [ ]
  Grown-trans (some a) (some b) (some c) p q = Evolves-trans p q

  -- Every row is still there, and has evolved.
  abbrev pub Later : Journal → Journal → Type 0
  Later rows rows' = (pid : Text) → Grown (find_attempt pid rows) (find_attempt pid rows')

  pub Later-refl : (rows : Journal) → Later rows rows
  Later-refl rows pid = Grown-refl (find_attempt pid rows)

  pub Later-trans : (a b c : Journal) → Later a b → Later b c → Later a c
  Later-trans a b c p q pid =
      Grown-trans (find_attempt pid a) (find_attempt pid b) (find_attempt pid c) (p pid) (q pid)

  -- The payload of an attempt.
  abbrev pub SamePayload : PublicationRecord → PublicationRecord → Type 0
  SamePayload row new =
      (new.process_id ≡ row.process_id)
      × (new.idempotency_key ≡ row.idempotency_key)
      × (new.request_digest ≡ row.request_digest)
      × (new.repository_id ≡ row.repository_id)
      × (new.base_branch ≡ row.base_branch)

  RowStep-SamePayload : {row new : PublicationRecord} → RowStep row new → SamePayload row new
  unfolding completed_row evidence_row
  RowStep-SamePayload (starts h) = (refl, refl, refl, refl, refl)
  RowStep-SamePayload (loses h) = (refl, refl, refl, refl, refl)
  RowStep-SamePayload (finishes receipt receipted h c) = (refl, refl, refl, refl, refl)
  RowStep-SamePayload (records manifest outcome commit at moment h c) =
      (refl, refl, refl, refl, refl)

  pub Evolves-SamePayload : {row new : PublicationRecord} → Evolves row new → SamePayload row new
  Evolves-SamePayload same = (refl, refl, refl, refl, refl)
  Evolves-SamePayload (later e s) =
      let (a, b, c, d, f) = Evolves-SamePayload e in
      let (a', b', c', d', f') = RowStep-SamePayload s in (a' ∙ a, b' ∙ b, c' ∙ c, d' ∙ d, f' ∙ f)

  -- No step leaves `completed`.
  RowStep-completed :
      {row new : PublicationRecord} → RowStep row new → row.status ≢ Status.completed
  RowStep-completed (starts h) e = cc
  RowStep-completed (loses h) e = cc
  RowStep-completed (finishes receipt receipted h c) e = elim h [ inl was ↦ cc | inr was ↦ cc ]
  RowStep-completed (records manifest outcome commit at moment h c) e = cc

  pub Evolves-completed :
      {row new : PublicationRecord} → Evolves row new → row.status ≡ Status.completed → new ≡ row
  Evolves-completed same e = refl
  Evolves-completed (later p s) e =
      elim (RowStep-completed s
        (ap (λ (r : PublicationRecord). r.status) (Evolves-completed p e) ∙ e)) [ ]

  -- A completed row carries the number and the URL of a receipt that matches its payload.
  abbrev pub IsBacked : PublicationRecord → Type 0
  IsBacked row =
      row.status ≡ Status.completed
      → (receipt : Receipt) × (receipted : Receipted) × (check_receipt host row receipt
          ≡ ok receipted)
        × (row.pull_request_id ≡ some receipted.number)
        × (row.pull_request_url ≡ receipted.url)

  check_receipt-completed_row :
      (row : PublicationRecord) (receipted : Receipted) (receipt : Receipt)
      → check_receipt host (completed_row receipted row) receipt ≡ check_receipt host row receipt
  unfolding check_receipt completed_row
  check_receipt-completed_row row receipted (mock pull) = refl
  check_receipt-completed_row row receipted (github url pull) = refl
  check_receipt-completed_row row receipted Receipt.other_object = refl

  RowStep-IsBacked : {row new : PublicationRecord} → RowStep row new → IsBacked new
  unfolding completed_row evidence_row
  RowStep-IsBacked (starts h) e = cc
  RowStep-IsBacked (loses h) e = cc
  RowStep-IsBacked (finishes receipt receipted h c) e =
      (receipt, receipted, check_receipt-completed_row _ receipted receipt ∙ c, refl, refl)
  RowStep-IsBacked (records manifest outcome commit at moment h c) e = cc

  pub Evolves-IsBacked :
      {row new : PublicationRecord} → Evolves row new → IsBacked row → IsBacked new
  Evolves-IsBacked same b = b
  Evolves-IsBacked (later p s) b = RowStep-IsBacked s
