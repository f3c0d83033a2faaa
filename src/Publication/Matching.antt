-- ===== src/Publication/Matching.antt =====
-- What an accepted receipt has in common with its attempt.
use mathlib.Core.Path.{subst}
use agent00x.Prelude.{
  ok_injective, ap, sym, ◌∙◌, text_eq_sound, ℕ, suc, ◌≤◌, Text, Bool, true, false, ◌||◌, not,
  Option, none, some, Kind, ok, raise_if, ◌≡◌, refl, arith, bind_returns,
}
use agent00x.Host.{Host}
use agent00x.Publication.Journal.{PublicationRecord}
use agent00x.Publication.Keys.{publication_idempotency_key}
use agent00x.Publication.Receipts.{
  Receipt, Receipted, PullRequest, mock, github, check_receipt, check_pull, match_receipt,
  receipt_number, number_or_raise, receipt_is_invalid, base_or_empty, is_this_base,
  url_is_acceptable,
}
use agent00x.Values.{Value, int, str, pos, py_eq, is_name, text_of}

-- The receipt's branch and digest with the attempt's base branch spell the attempt's key; key,
-- repository and base branch of the receipt are the attempt's.
abbrev pub Matches : PublicationRecord → PullRequest → Type 0
Matches row pull =
    (base : Text) × (row.base_branch ≡ some base)
    × (publication_idempotency_key (text_of pull.branch) base (text_of pull.staged_change_digest)
        ≡ ok row.idempotency_key)
    × (py_eq pull.idempotency_key (str row.idempotency_key) ≡ true)
    × (py_eq pull.repository_id (str row.repository_id) ≡ true)
    × (py_eq pull.base_branch (str base) ≡ true)

receipt_number-some : (v : Value) (n : ℕ) → receipt_number v ≡ some n → (v ≡ int (pos n)) × (1 ≤ n)
unfolding receipt_number
receipt_number-some (int (pos (suc m))) n h =
    let same : suc m ≡ n = ap (λ (o : Option ℕ). elim o as (λ _. ℕ) [ none ↦ n | some k ↦ k ]) h in
    (ap (λ k. int (pos k)) same, subst (λ k. 1 ≤ k) same (omega arith))
receipt_number-some _ n h = ground arith

number_or_raise-ok : (o : Option ℕ) (n : ℕ) → number_or_raise o ≡ ok n → o ≡ some n
unfolding number_or_raise
number_or_raise-ok none n h = cc
number_or_raise-ok (some m) n h = ap some (ok_injective m n h)

check_pull-number :
    (pull : PullRequest) (n : ℕ)
    → check_pull pull ≡ ok n
    → (pull.pull_request_id ≡ int (pos n)) × (1 ≤ n)
unfolding check_pull
check_pull-number pull n h =
    let (m, numbered, h1) =
      bind_returns (number_or_raise (receipt_number pull.pull_request_id)) _ h in
    let (_, named, h2) =
      bind_returns
        (receipt_is_invalid (not (is_name pull.branch) || not (is_name pull.staged_change_digest)))
        _ h1 in
    subst (λ k. (pull.pull_request_id ≡ int (pos k)) × (1 ≤ k)) (ok_injective m n h2)
      (receipt_number-some pull.pull_request_id m (number_or_raise-ok _ m numbered))

is_this_base-some :
    (v : Value) (o : Option Text)
    → is_this_base v o ≡ true
    → (base : Text) × (o ≡ some base) × (py_eq v (str base) ≡ true)
unfolding is_this_base
is_this_base-some v none h = ground arith
is_this_base-some v (some base) h = (base, refl, h)

all_four :
    {a b c d : Bool}
    → (not a || (not b || (not c || not d))) ≡ false
    → (a ≡ true) × (b ≡ true) × (c ≡ true) × (d ≡ true)
all_four {a} {b} {c} {d} h = ground arith

raise_passes : (t : Bool) (k : Kind) (m : Text) → raise_if t k m ≡ ok tt → t ≡ false
raise_passes true k m h = cc
raise_passes false k m h = refl

key_of_base :
    (row : PublicationRecord) (pull : PullRequest) (base expected : Text)
    → row.base_branch ≡ some base
    → publication_idempotency_key
        (text_of pull.branch)
        (base_or_empty row.base_branch)
        (text_of pull.staged_change_digest)
      ≡ ok expected
    → expected ≡ row.idempotency_key
    → publication_idempotency_key (text_of pull.branch) base (text_of pull.staged_change_digest)
      ≡ ok row.idempotency_key
unfolding base_or_empty
key_of_base row pull base expected has_base spelled same =
    sym (
      ap
        (λ o.
          publication_idempotency_key (text_of pull.branch) (base_or_empty o)
            (text_of pull.staged_change_digest))
        has_base)
    ∙ spelled
    ∙ ap ok same

match_receipt-Matches :
    (row : PublicationRecord) (pull : PullRequest)
    → match_receipt row pull ≡ ok tt
    → Matches row pull
unfolding match_receipt
match_receipt-Matches row pull h =
    let (expected, spelled, h1) =
      bind_returns
        (publication_idempotency_key (text_of pull.branch) (base_or_empty row.base_branch)
          (text_of pull.staged_change_digest))
        _ h in
    let (same, keyed, located, based) = all_four (raise_passes _ _ _ h1) in
    let (base, has_base, equal) = is_this_base-some pull.base_branch row.base_branch based in
    (
      base,
      has_base,
      key_of_base row pull base expected has_base spelled (text_eq_sound _ _ same),
      keyed,
      located,
      equal,
    )

numbered :
    (pull : PullRequest) (row : PublicationRecord) (receipted : Receipted) (n : ℕ)
    → check_pull pull ≡ ok n
    → match_receipt row pull ≡ ok tt
    → n ≡ receipted.number
    → (pull : PullRequest) × (pull.pull_request_id ≡ int (pos receipted.number))
      × (1 ≤ receipted.number)
      × Matches row pull
numbered pull row receipted n checked matched same =
    let (number, positive) = check_pull-number pull n checked in
    (
      pull,
      number ∙ ap (λ k. int (pos k)) same,
      subst (λ k. 1 ≤ k) same positive,
      match_receipt-Matches row pull matched,
    )

pub check_receipt-Matches :
    (host : Host) (row : PublicationRecord) (receipt : Receipt) (receipted : Receipted)
    → check_receipt host row receipt ≡ ok receipted
    → (pull : PullRequest) × (pull.pull_request_id ≡ int (pos receipted.number))
      × (1 ≤ receipted.number)
      × Matches row pull
unfolding check_receipt
check_receipt-Matches host row (mock pull) receipted h =
    let (n, checked, h1) = bind_returns (check_pull pull) _ h in
    let (_, matched, h2) = bind_returns (match_receipt row pull) _ h1 in
    numbered pull row receipted n checked matched
      (ap (λ (r : Receipted). r.number) (ok_injective _ _ h2))
check_receipt-Matches host row (github url pull) receipted h =
    let (n, checked, h1) = bind_returns (check_pull pull) _ h in
    let (_, located, h2) =
      bind_returns (receipt_is_invalid (not (url_is_acceptable host url))) _ h1 in
    let (_, matched, h3) = bind_returns (match_receipt row pull) _ h2 in
    numbered pull row receipted n checked matched
      (ap (λ (r : Receipted). r.number) (ok_injective _ _ h3))
check_receipt-Matches host row Receipt.other_object receipted h = cc
