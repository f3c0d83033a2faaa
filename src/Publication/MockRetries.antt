-- ===== src/Publication/MockRetries.antt =====
-- What the mock endpoint promises to a publisher that tries again.
use agent00x.Prelude.{
  ok_injective, Option-cases, Bool-cases, inl, inr, sym, ap, ◌∙◌, text_eq_refl, ℕ, ◌+◌, Text, text,
  true, false, none, some, List, ◌∷◌, Kind, Result, ok, err, length, ◌≡◌, refl, arith, Outcome,
}
use agent00x.Publication.MockGithub.{
  MockPullRequest, Publication, key_of, requested, is_for, opened, open_once, open_requested,
  publish_pull_request,
}
use agent00x.Tables.{find, find-cons}
use agent00x.Values.{Value}

is_for-opened : (n : ℕ) (p : Publication) → is_for p (opened n p) ≡ true
unfolding is_for opened
is_for-opened n p = ground (
  arith,
  text_eq_refl p.repository_id,
  text_eq_refl p.branch,
  text_eq_refl p.base_branch,
  text_eq_refl p.staged_change_digest,
)

open_once-again :
    (p : Publication) (known : List MockPullRequest) (pull : MockPullRequest)
    → find key_of p.idempotency_key known ≡ some pull
    → is_for p pull ≡ true
    → open_once p known ≡ (ok pull, known)
unfolding open_once
open_once-again p known pull h same = rw (open_once, h, same) refl

find-opened :
    (n : ℕ) (p : Publication) (known : List MockPullRequest)
    → find key_of p.idempotency_key (opened n p ∷ known) ≡ some (opened n p)
unfolding opened
find-opened n p known =
    find-cons key_of p.idempotency_key (opened n p) known ∙ rw (text_eq_refl p.idempotency_key) refl

pub never : {k : Kind} {m : Text} {pull : MockPullRequest} → err k m ≡ ok pull → ⊥
never e = cc

-- What a call that returned has left: the pull request under its key, opened for the publication.
pub open_once-found :
    (p : Publication) (known known' : List MockPullRequest) (pull : MockPullRequest)
    → open_once p known ≡ (ok pull, known')
    → (find key_of p.idempotency_key known' ≡ some pull) × (is_for p pull ≡ true)
unfolding open_once
open_once-found p known known' pull h = elim (Option-cases (find key_of p.idempotency_key known)) [
  | inl absent ↦ new_one absent
  | inr found ↦ elim (Bool-cases (is_for p found.0)) [
    | inl fits ↦ kept found.0 found.1 fits
    | inr differs ↦
        elim (never (
          ap (λ (o : Outcome (List MockPullRequest) MockPullRequest). o.0)
            (refused found.0 found.1 differs))) [ ]
  ]
]
  where
    found_as :
        (e : MockPullRequest) (es : List MockPullRequest)
        → find key_of p.idempotency_key es ≡ some e
        → is_for p e ≡ true
        → ◌≡◌ {A = Outcome (List MockPullRequest) MockPullRequest} (ok e, es) (ok pull, known')
        → (find key_of p.idempotency_key known' ≡ some pull) × (is_for p pull ≡ true)
    found_as e es at fits same =
        let as_pull : e ≡ pull =
          ok_injective _ _
            (ap (λ (o : Outcome (List MockPullRequest) MockPullRequest). o.0) same) in
        let as_known : es ≡ known' =
          ap (λ (o : Outcome (List MockPullRequest) MockPullRequest). o.1) same in
        (
          sym (ap (find key_of p.idempotency_key) as_known) ∙ at ∙ ap some as_pull,
          sym (ap (is_for p) as_pull) ∙ fits,
        )

    refused :
        (e : MockPullRequest)
        → find key_of p.idempotency_key known ≡ some e
        → is_for p e ≡ false
        → ◌≡◌ {A = Outcome (List MockPullRequest) MockPullRequest}
            (err Kind.contract_validation (text "mock github: idempotency conflict"), known)
            (ok pull, known')
    refused e at differs = sym (rw (open_once, at, differs) refl) ∙ h

    kept :
        (e : MockPullRequest)
        → find key_of p.idempotency_key known ≡ some e
        → is_for p e ≡ true
        → (find key_of p.idempotency_key known' ≡ some pull) × (is_for p pull ≡ true)
    kept e at fits = found_as e known at fits (sym (open_once-again p known e at fits) ∙ h)

    new_one :
        find key_of p.idempotency_key known ≡ none
        → (find key_of p.idempotency_key known' ≡ some pull) × (is_for p pull ≡ true)
    new_one absent =
        found_as (opened (length known + 1) p) (opened (length known + 1) p ∷ known)
          (find-opened (length known + 1) p known) (is_for-opened (length known + 1) p)
          (sym (rw (open_once, absent) refl) ∙ h)

open_requested-again :
    (asked : Result Publication) (known known' : List MockPullRequest) (pull : MockPullRequest)
    → open_requested asked known ≡ (ok pull, known')
    → open_requested asked known' ≡ (ok pull, known')
unfolding open_requested
open_requested-again (err k m) known known' pull h =
    elim (never (ap (λ (o : Outcome (List MockPullRequest) MockPullRequest). o.0) h)) [ ]
open_requested-again (ok p) known known' pull h =
    let (at, same) = open_once-found p known known' pull h in open_once-again p known' pull at same

-- The endpoint is idempotent: a request that opened or found a pull request returns the same one
-- when it is made again, and leaves the endpoint as it is.
pub publish-again :
    (request : Value) (known known' : List MockPullRequest) (pull : MockPullRequest)
    → publish_pull_request request known ≡ (ok pull, known')
    → publish_pull_request request known' ≡ (ok pull, known')
unfolding publish_pull_request
publish-again request known known' pull h =
    open_requested-again (requested request) known known' pull h
