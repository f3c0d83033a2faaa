-- ===== src/Authority/Binding.antt =====
-- What an accepted approval is bound to.
use agent00x.Prelude.{
  not-false, raise_if, leb, ltb, Kind, ℕ, ◌≤◌, ◌<◌, Text, text, text_eq_sound, ◌≡◌, ap, ◌∙◌, true,
  false, not, List, [], ◌∷◌, ok, arith, bind_returns, raise_if_passes,
}
use agent00x.Authority.{
  py_eq, is_version_one, require_clock, validate_approval, require_digest, bound_fields, all_match,
  check_intent_approved, check_identities, check_digests, check_times, require_expiry, need,
  both_present,
}
use agent00x.Clock.{DateTime}
use agent00x.Digests.{sha256_digest}
use agent00x.Host.{Host}
use agent00x.Values.{as_dict, Value, str, dict, Fields, get, is_name, text_of}
use agent00x.Values.Dicts.{as_dict-ok}
use agent00x.Values.Equality.{py_eq-str_right, is_name-str, names-eq}
use agent00x.Workflow.{Object}

-- `require_digest` returns the text of a `str`.
require_digest-ok : (v : Value) (m : Text) (d : Text) → require_digest v m ≡ ok d → v ≡ str d
unfolding require_digest
require_digest-ok v m d h = let (named, same) = parts in is_name-str v named ∙ ap str same
  where
    parts : (is_name v ≡ true) × (text_of v ≡ d)
    parts = ground arith

ltb-false : {a b : ℕ} → ltb a b ≡ false → b ≤ a
ltb-false {a} {b} h = ground arith

leb-false : {a b : ℕ} → leb a b ≡ false → b < a
leb-false {a} {b} h = ground arith

raise_leb_passes : {a b : ℕ} (k : Kind) (m : Text) → raise_if (leb a b) k m ≡ ok tt → b < a
raise_leb_passes {a} {b} k m h = ground arith

-- Every listed field is one and the same string in both dicts.
abbrev pub Agree : Fields → Fields → List Text → Type 0
Agree a i [] = Unit
Agree a i (k ∷ ks) = (get a k ≡ get i k) × (is_name (get a k) ≡ true) × Agree a i ks

all_match-Agree : (a i : Fields) (ks : List Text) → all_match a i ks ≡ ok tt → Agree a i ks
unfolding all_match
all_match-Agree a i [] h = tt
all_match-Agree a i (k ∷ ks) h =
    ground (arith, names-eq (get a k) (get i k), all_match-Agree a i ks)

module _ (host : Host) where
  -- The approval names the digest of this intent.
  check_intent_approved-ok :
      (intent : Value) (a : Fields)
      → check_intent_approved host intent a ≡ ok tt
      → (d : Text) × (sha256_digest host.sha256_hex intent ≡ ok d)
        × (get a (text "approved_intent_digest") ≡ str d)
  unfolding check_intent_approved
  check_intent_approved-ok intent a h =
      let (d, named, h1) = bind_returns (require_digest _ _) _ h in
      let (d', hashed, h2) = bind_returns (sha256_digest host.sha256_hex intent) _ h1 in
      let same : d ≡ d' = ground (arith, text_eq_sound d d') in
      (d', hashed, require_digest-ok _ _ d named ∙ ap str same)

  check_identities-Agree :
      (a i : Fields) → check_identities host a i ≡ ok tt → Agree a i bound_fields
  unfolding check_identities
  check_identities-Agree a i h =
      let (_, _, h1) = bind_returns (both_present a i bound_fields) _ h in
      let (_, _, h2) = bind_returns (need a (text "approver_id")) _ h1 in
      let (_, _, h3) = bind_returns (need a (text "policy_version")) _ h2 in
      let (_, _, h4) = bind_returns (need a (text "approved_at")) _ h3 in
      let (_, _, h5) = bind_returns (need a (text "expires_at")) _ h4 in
      let (_, _, h6) = bind_returns (need i (text "expires_at")) _ h5 in
      let (_, m, _) = bind_returns (all_match a i bound_fields) _ h6 in
      all_match-Agree a i bound_fields m

  -- Both records name this staged change, and the approval this intent.
  abbrev pub NamesDigests : Fields → Fields → Text → Type 0
  NamesDigests a i staged =
      (get a (text "staged_change_digest") ≡ str staged)
      × (get i (text "staged_change_digest") ≡ str staged)
      × ((d : Text) × (sha256_digest host.sha256_hex (dict i) ≡ ok d)
          × (get a (text "approved_intent_digest") ≡ str d))

  check_digests-NamesDigests :
      (a i : Fields) (staged : Text)
      → check_digests host a i staged ≡ ok tt
      → NamesDigests a i staged
  unfolding check_digests
  check_digests-NamesDigests a i staged h =
      let (d, named, h1) = bind_returns (require_digest _ _) _ h in
      let (t1, h2) = raise_if_passes _ _ _ _ h1 in
      let (d', named', h3) = bind_returns (require_digest _ _) _ h2 in
      let (t2, h4) = raise_if_passes _ _ _ _ h3 in
      (
        require_digest-ok _ _ d named ∙ ap str (text_eq_sound d staged (not-false t1)),
        require_digest-ok _ _ d' named' ∙ ap str (text_eq_sound d' staged (not-false t2)),
        check_intent_approved-ok (dict i) a h4,
      )

  -- The approval was given at or before `moment`, and it and the intent outlast it.
  abbrev pub Lasts : Fields → Fields → ℕ → Type 0
  Lasts a i moment =
      (approved_at expires_at intent_expiry : ℕ) × (require_expiry host a (text "approval time")
          (text "approved_at")
        ≡ ok approved_at)
      × (require_expiry host a (text "expiry") (text "expires_at") ≡ ok expires_at)
      × (require_expiry host i (text "intent expiry") (text "expires_at") ≡ ok intent_expiry)
      × (approved_at ≤ moment)
      × (moment < expires_at)
      × (moment < intent_expiry)

  check_times-Lasts :
      (a i : Fields) (moment : ℕ) → check_times host a i moment ≡ ok tt → Lasts a i moment
  unfolding check_times
  check_times-Lasts a i moment h =
      let (at, e1, h1) = bind_returns (require_expiry host a _ _) _ h in
      let (t1, h2) =
        raise_if_passes (ltb moment at) Kind.contract_validation
          (text "approval: approval time is in the future") _ h1 in
      let (ex, e2, h3) = bind_returns (require_expiry host a _ _) _ h2 in
      let (t2, h4) =
        raise_if_passes (leb ex moment) Kind.contract_validation (text "approval: expired") _ h3 in
      let (t3, h5) =
        raise_if_passes (leb ex at) Kind.contract_validation
          (text "approval: approval time is invalid") _ h4 in
      let (ie, e3, h6) = bind_returns (require_expiry host i _ _) _ h5 in
      (at, ex, ie, e1, e2, e3, ltb-false t1, leb-false t2, raise_leb_passes _ _ h6)

  -- An accepted approval and the intent agree on process, repository, operation and approval, name
  -- the digest of the staged change, and hold at this moment; the approval names the intent's digest
  -- and the given policy version.
  pub validate_approval-binds :
      (approval staged_change intent : Value) (policy_version : Text) (now : Object DateTime)
      → validate_approval host approval staged_change intent policy_version now ≡ ok tt
      → (a i s : Fields) × (moment : ℕ) × (staged : Text) × (approval ≡ dict a)
        × (intent ≡ dict i)
        × (staged_change ≡ dict s)
        × (require_clock now ≡ ok moment)
        × (sha256_digest host.sha256_hex (dict s) ≡ ok staged)
        × Agree a i bound_fields
        × NamesDigests a i staged
        × (get a (text "policy_version") ≡ str policy_version)
        × Lasts a i moment
  unfolding validate_approval
  validate_approval-binds approval staged_change intent policy_version now h =
      let (a, ea, h1) = bind_returns (as_dict approval _ _) _ h in
      let (i, ei, h2) = bind_returns (as_dict intent _ _) _ h1 in
      let (s, es, h3) = bind_returns (as_dict staged_change _ _) _ h2 in
      let (moment, em, h4) = bind_returns (require_clock now) _ h3 in
      let (_, h5) =
        raise_if_passes (not (is_version_one (get a (text "schema_version"))))
          Kind.contract_validation (text "approval: schema version is invalid") _ h4 in
      let (staged, ed, h6) = bind_returns (sha256_digest host.sha256_hex (dict s)) _ h5 in
      let (_, ids, h7) = bind_returns (check_identities host a i) _ h6 in
      let (_, digests, h8) = bind_returns (check_digests host a i staged) _ h7 in
      let (version, h9) =
        raise_if_passes (not (py_eq (get a (text "policy_version")) (str policy_version)))
          Kind.contract_validation (text "approval: policy version mismatch") _ h8 in
      (
        a,
        i,
        s,
        moment,
        staged,
        as_dict-ok approval _ _ a ea,
        as_dict-ok intent _ _ i ei,
        as_dict-ok staged_change _ _ s es,
        em,
        ed,
        check_identities-Agree a i ids,
        check_digests-NamesDigests a i staged digests,
        py_eq-str_right _ _ (not-false version),
        check_times-Lasts a i moment h9,
      )
