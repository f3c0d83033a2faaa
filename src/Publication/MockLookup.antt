-- ===== src/Publication/MockLookup.antt =====
-- What the mock endpoint promises to a recovery.
use mathlib.Core.Path.{subst}
use agent00x.Prelude.{
  &&_split, length-append, ok_injective, or_raise, sym, ap, ◌∙◌, text_eq_refl, text_eq_sound,
  not-false, remove_prefix, ℕ, suc, ◌≤◌, Text, text, text_eq, starts_with, true, false, ◌&&◌, ◌||◌,
  not, some, List, ◌∷◌, ◌++◌, Kind, Result, ok, err, raise_if, leb, ◌==◌, length, ◌≡◌, refl, arith,
  is_empty_text, bind_returns, raise_if_passes, Outcome,
}
use agent00x.ApprovalSignature.{has_all}
use agent00x.Digests.Shape.{is_digest}
use agent00x.Publication.Execution.{boundary_fields, all_named}
use agent00x.Publication.Keys.{branch_namespace, publication_idempotency_key, validate_base_branch}
use agent00x.Publication.MockGithub.{
  checked_fields, MockPullRequest, Publication, key_of, requested, check_boundary, publication_of,
  check_publication, is_for, opened, open_requested, publish_pull_request, find_by_idempotency_key,
  confirm_found, confirmed, other_repository,
}
use agent00x.Publication.MockRetries.{open_once-found, never}
use agent00x.Publication.Percent.{quote}
use agent00x.Tables.{find, find-key}
use agent00x.Values.{size, is_true, Value, str, Fields, get, py_eq, is_name, text_of, as_dict}

past_eight : (n : ℕ) → 1 ≤ n → leb (suc (suc (suc (suc (suc (suc (suc (suc n)))))))) 8 ≡ false
past_eight n h = ground arith

-- An idempotency key is in the publication namespace, and longer than its prefix.
key_shape :
    (branch base digest key : Text)
    → publication_idempotency_key branch base digest ≡ ok key
    → (is_empty_text key ≡ false)
      × (starts_with (text "publish/") key ≡ true)
      × (leb (length key) 8 ≡ false)
unfolding publication_idempotency_key text starts_with
key_shape branch base digest key h =
    let (head, eh, h1) = bind_returns (quote (remove_prefix branch_namespace branch)) _ h in
    let (tail, et, h2) = bind_returns (quote base) _ h1 in
    subst
      (λ k.
        (is_empty_text k ≡ false)
        × (starts_with (text "publish/") k ≡ true)
        × (leb (length k) 8 ≡ false))
      (ok_injective _ _ h2)
      (refl, refl, past_eight _ (omega (arith, length-append head (47 ∷ (tail ++ 47 ∷ digest)))))

named_text : (v : Value) → is_name v ≡ true → is_empty_text (text_of v) ≡ false
unfolding is_name text_of
named_text v h = ground arith

-- What the tests establish of a publication.
abbrev IsChecked : Publication → Type 0
IsChecked p =
    (or_raise (validate_base_branch (str p.base_branch)) Kind.contract_validation
        (text "mock github: lookup base branch is invalid")
      ≡ ok tt)
    × (publication_idempotency_key p.branch p.base_branch p.staged_change_digest
        ≡ ok p.idempotency_key)

same_key :
    (key expected : Text)
    → raise_if
        (not (text_eq key expected))
        Kind.contract_validation
        (text "mock github: idempotency key mismatch")
      ≡ ok tt
    → key ≡ expected
same_key key expected h = ground (arith, text_eq_sound key expected)

-- A check passes or raises, whichever exception stands for its failure.
other_message :
    (r : Result (Unit {0})) (k : Kind) (m m' : Text)
    → or_raise r k m ≡ ok tt
    → or_raise r k m' ≡ ok tt
other_message (ok tt) k m m' h = refl
other_message (err _ _) k m m' h = cc

check_publication-IsChecked : (p : Publication) → check_publication p ≡ ok tt → IsChecked p
unfolding check_publication
check_publication-IsChecked p h =
    let (in_agent, h1) =
      raise_if_passes (not (starts_with (text "agent/") p.branch) || leb (length p.branch) 6)
        Kind.contract_validation (text "mock github: branch is outside the agent namespace") _ h in
    let (_, based, h2) =
      bind_returns (or_raise (validate_base_branch (str p.base_branch)) _ _) _ h1 in
    let (shaped, h3) =
      raise_if_passes (not (is_digest p.staged_change_digest)) Kind.contract_validation
        (text "mock github: digest is malformed") _ h2 in
    let (expected, spelled, h4) =
      bind_returns (publication_idempotency_key p.branch p.base_branch p.staged_change_digest) _
        h3 in
    (
      other_message (validate_base_branch (str p.base_branch)) Kind.contract_validation _ _ based,
      spelled ∙ ap ok (sym (same_key p.idempotency_key expected h4)),
    )

first_named :
    (d : Fields) → all_named d checked_fields ≡ true → is_name (get d (text "repository_id")) ≡ true
unfolding all_named
first_named d h = (&&_split h).0

check_boundary-repository :
    (request : Value) (r : Fields)
    → check_boundary request ≡ ok r
    → is_empty_text (publication_of r).repository_id ≡ false
unfolding check_boundary publication_of
check_boundary-repository request r h =
    let (d, _, h1) = bind_returns (as_dict request _ _) _ h in
    let (_, h2) =
      raise_if_passes (not (has_all d boundary_fields && size d == 8)) Kind.contract_validation
        (text "mock github: request shape mismatch") _ h1 in
    let (_, h3) =
      raise_if_passes (not (py_eq (get d (text "operation")) (str (text "publish_pull_request"))))
        Kind.contract_validation (text "mock github: operation is not registered") _ h2 in
    let (_, h4) =
      raise_if_passes
        (not (py_eq (get d (text "policy_effect")) (str (text "allow")))
          || not (is_true (get d (text "approval_valid"))))
        Kind.contract_validation (text "mock github: authority proof is invalid") _ h3 in
    let (named, h5) =
      raise_if_passes (not (all_named d checked_fields)) Kind.contract_validation
        (text "mock github: boundary field is invalid") _ h4 in
    subst (λ q. is_empty_text (text_of (get q (text "repository_id"))) ≡ false)
      (ok_injective _ _ h5) (named_text _ (first_named d (not-false named)))

requested-IsChecked :
    (request : Value) (p : Publication)
    → requested request ≡ ok p
    → IsChecked p × (is_empty_text p.repository_id ≡ false)
unfolding requested
requested-IsChecked request p h =
    let (r, bounded, h1) = bind_returns (check_boundary request) _ h in
    let (_, checked, h2) = bind_returns (check_publication (publication_of r)) _ h1 in
    subst (λ q. IsChecked q × (is_empty_text q.repository_id ≡ false)) (ok_injective _ _ h2)
      (
        check_publication-IsChecked (publication_of r) checked,
        check_boundary-repository request r bounded,
      )

-- The pull request has the names of its publication.
abbrev SameNames : Publication → MockPullRequest → Type 0
SameNames p pull =
    (pull.repository_id ≡ p.repository_id)
    × (pull.branch ≡ p.branch)
    × (pull.base_branch ≡ p.base_branch)
    × (pull.staged_change_digest ≡ p.staged_change_digest)

is_for-SameNames :
    (p : Publication) (pull : MockPullRequest) → is_for p pull ≡ true → SameNames p pull
unfolding is_for
is_for-SameNames p pull h = ground (
  arith,
  text_eq_sound pull.repository_id p.repository_id,
  text_eq_sound pull.branch p.branch,
  text_eq_sound pull.base_branch p.base_branch,
  text_eq_sound pull.staged_change_digest p.staged_change_digest,
)

as_opened :
    (p : Publication) (pull : MockPullRequest)
    → SameNames p pull
    → pull.idempotency_key ≡ p.idempotency_key
    → pull ≡ opened pull.pull_request_id p
unfolding opened
as_opened p pull (repository, branch, base, digest) key = λ i. record {
  pull_request_id = pull.pull_request_id;
  repository_id = repository i;
  branch = branch i;
  staged_change_digest = digest i;
  idempotency_key = key i;
  base_branch = base i;
}

confirmed-opened :
    (n : ℕ) (p : Publication)
    → IsChecked p
    → confirmed p.idempotency_key (some p.repository_id) (some p.base_branch) (opened n p)
      ≡ ok (some (opened n p))
unfolding confirmed other_repository opened
confirmed-opened n p (based, spelled) =
    rw
      (
        based,
        spelled,
        text_eq_refl p.idempotency_key,
        text_eq_refl p.base_branch,
        text_eq_refl p.repository_id,
      )
      refl

find-opened_pull :
    (n : ℕ) (p : Publication) (known : List MockPullRequest)
    → IsChecked p
    → is_empty_text p.repository_id ≡ false
    → find key_of p.idempotency_key known ≡ some (opened n p)
    → find_by_idempotency_key p.idempotency_key (some p.repository_id) (some p.base_branch) known
      ≡ ok (some (opened n p))
unfolding find_by_idempotency_key confirm_found
find-opened_pull n p known checked named at =
    let (filled, prefixed, long) =
      key_shape p.branch p.base_branch p.staged_change_digest p.idempotency_key checked.1 in
    rw (find_by_idempotency_key, filled, prefixed, long, named, at) (confirmed-opened n p checked)

-- What was published can be found again: after a request that returned a pull request, the look-up
-- by its idempotency key, its repository and its base branch returns that pull request.
pub find-publish :
    (request : Value) (known known' : List MockPullRequest) (pull : MockPullRequest)
    → publish_pull_request request known ≡ (ok pull, known')
    → find_by_idempotency_key pull.idempotency_key
        (some pull.repository_id)
        (some pull.base_branch)
        known'
      ≡ ok (some pull)
unfolding publish_pull_request open_requested opened
find-publish request known known' pull h = found (requested request) refl h
  where
    found :
        (asked : Result Publication)
        → requested request ≡ asked
        → open_requested asked known ≡ (ok pull, known')
        → find_by_idempotency_key pull.idempotency_key
            (some pull.repository_id)
            (some pull.base_branch)
            known'
          ≡ ok (some pull)
    found (err k m) e h' =
        elim (never (ap (λ (o : Outcome (List MockPullRequest) MockPullRequest). o.0) h')) [ ]
    found (ok p) e h' =
        let (at, same) = open_once-found p known known' pull h' in
        let (checked, named) = requested-IsChecked request p e in
        let shape =
          as_opened p pull (is_for-SameNames p pull same)
            (find-key key_of p.idempotency_key known' pull at) in
        subst
          (λ (q : MockPullRequest).
            find_by_idempotency_key q.idempotency_key (some q.repository_id) (some q.base_branch)
              known'
            ≡ ok (some q))
          (sym shape)
          (find-opened_pull pull.pull_request_id p known' checked named (at ∙ ap some shape))
