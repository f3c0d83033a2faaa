-- ===== src/Observation/Stored.antt =====
-- What a write does to the rows that a table holds.
use mathlib.Core.Path.{subst}
use agent00x.Prelude.{
  ℕ, Text, text_eq, true, none, some, List, Kind, ok, err, ◌≡◌, refl, Outcome, Option-cases,
  Bool-cases, inl, inr, ◌⊎◌, sym, ap, ◌∙◌, ok_injective, text_eq_sound, text_eq_refl,
}
use agent00x.Observation.Sqlite.{Row, row_id, insert_row, next_cursor, store_row}
use agent00x.Tables.{find}
use agent00x.Values.{Fields}

-- The later table holds every row that the earlier one finds.
abbrev pub Keeps : List Row → List Row → Type 0
Keeps rs rs' = (id : Text) (r : Row) → find row_id id rs ≡ some r → find row_id id rs' ≡ some r

pub Keeps-refl : (rs : List Row) → Keeps rs rs
Keeps-refl rs id r h = h

pub Keeps-insert :
    (id : Text) (d : Fields) (digest : Text) (rs : List Row)
    → find row_id id rs ≡ none
    → Keeps rs (insert_row id d digest rs)
unfolding insert_row find
Keeps-insert id d digest rs new j r h = elim (Bool-cases (text_eq id j)) [
  | inl same ↦
      let missing : find row_id j rs ≡ none =
        subst (λ i. find row_id i rs ≡ none) (text_eq_sound id j same) new in
      absurd (clash (sym missing ∙ h))
  | inr other ↦ rw other h
]
  where
    clash : none ≡ some r → ⊥
    clash e = cc

module _ (conflict id : Text) (d : Fields) (digest : Text) (rs : List Row) where
  abbrev stored : Outcome (List Row) ℕ
  stored = store_row conflict id d digest rs

  store_row-new :
      find row_id id rs ≡ none → stored ≡ (ok (next_cursor rs), insert_row id d digest rs)
  unfolding store_row
  store_row-new new = rw (new, store_row) refl

  store_row-known :
      (r : Row)
      → find row_id id rs ≡ some r
      → ((r.digest ≡ digest) × (stored ≡ (ok r.cursor, rs)))
        ⊎ (stored ≡ (err Kind.event_conflict conflict, rs))
  unfolding store_row
  store_row-known r old = elim (Bool-cases (text_eq r.digest digest)) [
    | inl again ↦ inl (text_eq_sound r.digest digest again, rw (old, store_row) (rw again refl))
    | inr other ↦ inr (rw (old, store_row) (rw other refl))
  ]

  pub store_row-Keeps : Keeps rs stored.1
  store_row-Keeps = elim (Option-cases (find row_id id rs)) [
    | inl new ↦
        subst (Keeps rs) (sym (ap after (store_row-new new))) (Keeps-insert id d digest rs new)
    | inr old ↦ elim (store_row-known old.0 old.1) [
      | inl again ↦ subst (Keeps rs) (sym (ap after again.1)) (Keeps-refl rs)
      | inr refused ↦ subst (Keeps rs) (sym (ap after refused)) (Keeps-refl rs)
    ]
  ]
    where
      after : Outcome (List Row) ℕ → List Row
      after o = o.1

  pub find-insert_row :
      (r : Row) × (find row_id id (insert_row id d digest rs) ≡ some r)
      × (r.cursor ≡ next_cursor rs)
      × (r.digest ≡ digest)
  unfolding insert_row find
  find-insert_row = (
    record { id = id; cursor = next_cursor rs; content = d; digest = digest },
    rw (text_eq_refl id) refl,
    refl,
    refl,
  )

  -- A row stored, or found again, is the one that the table holds from then on.
  pub store_row-finds :
      (n : ℕ)
      → stored.0 ≡ ok n
      → (r : Row) × (find row_id id stored.1 ≡ some r) × (r.cursor ≡ n) × (r.digest ≡ digest)
  store_row-finds n h = elim (Option-cases (find row_id id rs)) [
    | inl new ↦
        let e = store_row-new new in
        let (r, at, placed, same) = find-insert_row in
        (r, ap (λ (o : Outcome (List Row) ℕ). find row_id id o.1) e ∙ at, placed ∙ count e, same)
    | inr old ↦ elim (store_row-known old.0 old.1) [
      | inl again ↦ (
        old.0,
        ap (λ (o : Outcome (List Row) ℕ). find row_id id o.1) again.1 ∙ old.1,
        count again.1,
        again.0,
      )
      | inr refused ↦ absurd (raised (sym (ap (λ (o : Outcome (List Row) ℕ). o.0) refused) ∙ h))
    ]
  ]
    where
      count : {m : ℕ} {rs' : List Row} → stored ≡ (ok m, rs') → m ≡ n
      count {m} e = ok_injective m n (sym (ap (λ (o : Outcome (List Row) ℕ). o.0) e) ∙ h)

      raised : err Kind.event_conflict conflict ≡ ok n → ⊥
      raised e = cc

  -- The same record is found again at the cursor that its row has.
  pub store_row-again :
      (r : Row) → find row_id id rs ≡ some r → r.digest ≡ digest → stored.0 ≡ ok r.cursor
  unfolding store_row
  store_row-again r old same =
      let e : text_eq r.digest digest ≡ true = rw same (text_eq_refl digest) in
      rw (old, store_row) (rw e refl)
