-- ===== src/Observation/Rows.antt =====
-- How the rows of the SQLite journal stand for the list and the dict of the journal in memory.
use mathlib.Core.Path.{subst}
use agent00x.Prelude.{
  ℕ, suc, ◌+◌, ◌≤◌, ◌<◌, Text, text_eq, Bool, true, false, Option, none, some, List, [], ◌∷◌, ◌++◌,
  ok, if◌then◌else◌, length, ◌≡◌, refl, arith, Outcome, All, All-append, Bool-cases, Option-cases,
  length-append, inl, inr, sym, ap, ◌∙◌, text_eq_sound,
}
use agent00x.Observation.Checks.{id_of, position_from}
use agent00x.Observation.Memory.{Log, known_digest, position, found_or_raise, enter}
use agent00x.Observation.Sqlite.{
  Row, row_id, insert_by_cursor, by_cursor, contents, next_cursor, insert_row, store_row,
}
use agent00x.Tables.{find}
use agent00x.Values.{Fields}

-- The rows, the newest first, hold the items in order with their positions and digests.
pub data Same (key : Text) : List Fields → List (Text × Text) → List Row → Type 0 where
  none_yet : Same key [] [] []
  one_more :
      {ds ds' : List Fields} {gs : List (Text × Text)} {rs : List Row} {r : Row}
      → Same key ds gs rs
      → r.id ≡ id_of key r.content
      → r.cursor ≡ length ds
      → find row_id r.id rs ≡ none
      → ds' ≡ ds ++ r.content ∷ []
      → Same key ds' ((r.id, r.digest) ∷ gs) (r ∷ rs)

abbrev digest_in : Option Row → Option Text
digest_in none = none
digest_in (some r) = some r.digest

abbrev cursor_in : Option Row → Option ℕ
cursor_in none = none
cursor_in (some r) = some r.cursor

pub known_digest-find :
    {key : Text} {ds : List Fields} {gs : List (Text × Text)} {rs : List Row}
    → Same key ds gs rs
    → (id : Text) → known_digest id gs ≡ digest_in (find row_id id rs)
unfolding known_digest find
known_digest-find none_yet id = refl
known_digest-find (one_more {r} same own at new more) id = ground (arith, known_digest-find same id)

next_cursor-length :
    {key : Text} {ds : List Fields} {gs : List (Text × Text)} {rs : List Row}
    → Same key ds gs rs
    → next_cursor rs ≡ length ds
unfolding next_cursor
next_cursor-length none_yet = refl
next_cursor-length (one_more {ds} {r} same own at new more) =
    rw more (ground (arith, next_cursor-length same, length-append ds (r.content ∷ [])))

insert_by_cursor-last :
    (r : Row) (rs : List Row)
    → All (λ (x : Row). x.cursor < r.cursor) rs
    → insert_by_cursor r rs ≡ rs ++ r ∷ []
unfolding insert_by_cursor
insert_by_cursor-last r [] h = refl
insert_by_cursor-last r (x ∷ rs) h = ground (arith, insert_by_cursor-last r rs h.1)

contents-append :
    (rs : List Row) (r : Row) → contents (rs ++ r ∷ []) ≡ contents rs ++ r.content ∷ []
unfolding contents
contents-append [] r = refl
contents-append (x ∷ rs) r = ap (λ t. x.content ∷ t) (contents-append rs r)

All-below :
    (n m : ℕ) (rs : List Row)
    → n ≤ m
    → All (λ (x : Row). x.cursor < n) rs
    → All (λ (x : Row). x.cursor < m) rs
All-below n m [] le h = tt
All-below n m (x ∷ rs) le h = (omega arith, All-below n m rs le h.1)

-- In the order of their cursors the rows hold the items.
pub by_cursor-items :
    {key : Text} {ds : List Fields} {gs : List (Text × Text)} {rs : List Row}
    → Same key ds gs rs
    → All (λ (x : Row). x.cursor < length ds) (by_cursor rs) × (contents (by_cursor rs) ≡ ds)
unfolding by_cursor contents
by_cursor-items none_yet = (tt, refl)
by_cursor-items (one_more {ds} {ds'} {gs} {rs} {r} same own at new more) =
    let (below, held) = by_cursor-items same in
    let last = insert_by_cursor-last r (by_cursor rs) (rw at below) in
    let longer : length ds' ≡ length ds + 1 = ap length more ∙ length-append ds (r.content ∷ []) in
    (
      subst (All (λ (x : Row). x.cursor < length ds')) (sym last) (
          All-append (λ (x : Row). x.cursor < length ds') (by_cursor rs) (r ∷ [])
            (All-below (length ds) (length ds') (by_cursor rs) (omega arith) below)
            (omega arith, tt)),
      ap contents last
          ∙ (contents-append (by_cursor rs) r ∙ (ap (λ t. t ++ r.content ∷ []) held ∙ sym more)),
    )

or_last : Option ℕ → Bool → ℕ → Option ℕ
or_last none true n = some n
or_last none false n = none
or_last (some m) b n = some m

position_from-append :
    (key id : Text) (n : ℕ) (ds : List Fields) (d : Fields)
    → position_from key id n (ds ++ d ∷ [])
      ≡ or_last (position_from key id n ds) (text_eq (id_of key d) id) (n + length ds)
unfolding position_from or_last
position_from-append key id n [] d = elim (Bool-cases (text_eq (id_of key d) id)) [
  | inl same ↦ rw (same, id_of) (ground arith)
  | inr other ↦ rw (other, id_of) refl
]
position_from-append key id n (x ∷ ds) d = elim (Bool-cases (text_eq (id_of key x) id)) [
  | inl same ↦ rw same refl
  | inr other ↦ rw other (
      position_from-append key id (suc n) ds d
      ∙ ap (or_last (position_from key id (suc n) ds) (text_eq (id_of key d) id)) (omega arith))
]

or_last-false : (o : Option ℕ) (n : ℕ) → or_last o false n ≡ o
unfolding or_last
or_last-false none n = refl
or_last-false (some m) n = refl

-- The same for a new row, once it is known for the others.
position_of_new :
    (id : Text) (r : Row) (rs : List Row) (n : ℕ)
    → r.cursor ≡ n
    → find row_id r.id rs ≡ none
    → or_last (cursor_in (find row_id id rs)) (text_eq r.id id) (0 + n)
      ≡ cursor_in (if text_eq r.id id then some r else find row_id id rs)
position_of_new id r rs n at new = elim (Bool-cases (text_eq r.id id)) [
  | inl same ↦
      let none_before : find row_id id rs ≡ none =
        subst (λ i. find row_id i rs ≡ none) (text_eq_sound r.id id same) new in
      rw (same, none_before) (unfold or_last in (ap some (omega arith)))
  | inr other ↦ rw other (or_last-false (cursor_in (find row_id id rs)) (0 + n))
]

-- The position of an item is the cursor of its row.
position_from-find :
    {key : Text} {ds : List Fields} {gs : List (Text × Text)} {rs : List Row}
    → Same key ds gs rs
    → (id : Text) → position_from key id 0 ds ≡ cursor_in (find row_id id rs)
unfolding find
position_from-find none_yet id = unfold position_from in refl
position_from-find {key} (one_more {ds} {ds'} {gs} {rs} {r} same own at new more) id =
    ap (position_from key id 0) more
    ∙ (position_from-append key id 0 ds r.content
        ∙ rw (position_from-find same id, ← own) (position_of_new id r rs (length ds) at new))

-- The two outcomes return or raise the same, and leave rows that stand for the items.
abbrev pub Agree : Text → Outcome Log ℕ → Outcome (List Row) ℕ → Type 0
Agree key o o' = (o.0 ≡ o'.0) × Same key o.1.items o.1.digests o'.1

module _ (key conflict : Text) (d : Fields) (digest : Text) (log : Log) (rs : List Row)
    (same : Same key log.items log.digests rs) where
  enter_new :
      find row_id (id_of key d) rs ≡ none
      → Agree key (enter key conflict d digest log) (store_row conflict (id_of key d) d digest rs)
  unfolding enter store_row insert_row
  enter_new new =
      let unknown = known_digest-find same (id_of key d) ∙ ap digest_in new in
      let count = next_cursor-length same in
      rw (unknown, new, enter, store_row) (ap ok (sym count), one_more same refl count new refl)

  enter_known :
      (r : Row)
      → find row_id (id_of key d) rs ≡ some r
      → Agree key (enter key conflict d digest log) (store_row conflict (id_of key d) d digest rs)
  unfolding enter store_row
  enter_known r old =
      let known = known_digest-find same (id_of key d) ∙ ap digest_in old in
      let placed = position_from-find same (id_of key d) ∙ ap cursor_in old in
      rw (known, old, enter, store_row)
        (elim (Bool-cases (text_eq r.digest digest)) [
          | inl again ↦ rw again (unfold position found_or_raise in (rw placed refl), same)
          | inr other ↦ rw other (refl, same)
        ])

-- A record is entered in memory exactly as its row is stored: the results are equal, and the rows go
-- on standing for the items.
pub enter-store_row :
    (key conflict : Text) (d : Fields) (digest : Text) (log : Log) (rs : List Row)
    → Same key log.items log.digests rs
    → Agree key (enter key conflict d digest log) (store_row conflict (id_of key d) d digest rs)
enter-store_row key conflict d digest log rs same =
    elim (Option-cases (find row_id (id_of key d) rs)) [
      | inl new ↦ enter_new key conflict d digest log rs same new
      | inr old ↦ enter_known key conflict d digest log rs same old.0 old.1
    ]
