-- ===== src/Tables.antt =====
-- SQLite tables as lists of rows, the newest first, with a text column as key.
use agent00x.Prelude.{
  Text, text_eq, ◌≡◌, refl, ◌≢◌, Option, none, some, List, [], ◌∷◌, arith, text_eq_iff,
  if◌then◌else◌,
}

module _ {A : Type 0} (key : A → Text) where
  -- `SELECT … WHERE key = ?` on a primary key
  unfoldable pub find : Text → List A → Option A
  unfolding text_eq
  find k [] = none
  find k (r ∷ rs) = if text_eq (key r) k then some r else find k rs

  -- `UPDATE … WHERE key = ?` on a primary key
  unfoldable pub replace : Text → A → List A → List A
  unfolding text_eq
  replace k new [] = []
  replace k new (r ∷ rs) = if text_eq (key r) k then new ∷ rs else r ∷ replace k new rs

  -- `SELECT … WHERE key = ?` on any column
  unfoldable pub select : Text → List A → List A
  unfolding text_eq
  select k [] = []
  select k (r ∷ rs) = let rest = select k rs in if text_eq (key r) k then r ∷ rest else rest

  pub find-key : (k : Text) (rs : List A) (r : A) → find k rs ≡ some r → key r ≡ k
  unfolding find
  find-key k [] r h = cc
  find-key k (x ∷ rs) r h = ground (arith, text_eq_iff (key x) k, find-key k rs r)

  pub find-cons :
      (k : Text) (r : A) (rs : List A)
      → find k (r ∷ rs) ≡ (if text_eq (key r) k then some r else find k rs)
  unfolding find
  find-cons k r rs = refl

  pub find-replace_self :
      (k : Text) (new old : A) (rs : List A)
      → key new ≡ k
      → find k rs ≡ some old
      → find k (replace k new rs) ≡ some new
  unfolding find replace
  find-replace_self k new old [] e h = cc
  find-replace_self k new old (x ∷ rs) e h =
      ground
        (arith, text_eq_iff (key x) k, text_eq_iff (key new) k, find-replace_self k new old rs e)

  pub find-replace_ne :
      (k j : Text) (new : A) (rs : List A)
      → key new ≡ k
      → k ≢ j
      → find j (replace k new rs) ≡ find j rs
  unfolding find replace
  find-replace_ne k j new [] e h = refl
  find-replace_ne k j new (x ∷ rs) e h = ground (
    arith,
    text_eq_iff (key x) k,
    text_eq_iff (key x) j,
    text_eq_iff (key new) j,
    find-replace_ne k j new rs e h,
  )

  pub select-cons :
      (k : Text) (r : A) (rs : List A)
      → select k (r ∷ rs) ≡ (if text_eq (key r) k then r ∷ select k rs else select k rs)
  unfolding select
  select-cons k r rs = refl
