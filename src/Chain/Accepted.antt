-- ===== src/Chain/Accepted.antt =====
-- What an accepted chain is bound to.
use agent00x.Prelude.{Text, text, true, false, List, [], ◌∷◌, ok, ◌≡◌, refl}
use agent00x.Chain.Delegation.{validate_delegation}
use agent00x.Chain.Members.{contract}
use agent00x.Chain.Names.{AllName}
use agent00x.Chain.Validation.{
  entry, digest_of, digest_contracts, process_contracts, repository_contracts, request_fields,
}
use agent00x.Host.{Host}
use agent00x.Publication.Keys.{publication_idempotency_key, validate_base_branch}
use agent00x.Values.{
  Value, null, bool, int, str, list, dict, Fields, get, py_eq, text_of, fields_of, tuple, object,
  is_bool, is_true,
}

-- One process and one repository, and a delegation that the rules allow.
abbrev pub SameSubject : Fields → Type 0
SameSubject c =
    (p r : Text) × AllName c (text "process_id") p process_contracts
    × AllName c (text "repository_id") r repository_contracts
    × (validate_delegation (contract c (text "capability_grant"))
          (contract c (text "delegation_receipt"))
        ≡ ok tt)

-- The envelope is not tainted.
abbrev pub IsUntainted : Fields → Type 0
IsUntainted c =
    get (fields_of (entry c (text "canonical_envelope") (text "security"))) (text "tainted")
    ≡ bool false

untainted : (v : Value) → is_bool v ≡ true → is_true v ≡ false → v ≡ bool false
unfolding is_bool is_true
untainted (bool false) b t = refl
untainted (bool true) b t = cc
untainted null b t = cc
untainted (int n) b t = cc
untainted (str s) b t = cc
untainted (list xs) b t = cc
untainted (tuple xs) b t = cc
untainted (dict d) b t = cc
untainted (object n) b t = cc

-- Each listed field of the request is the intent's, as Python compares them.
abbrev pub Repeats : Fields → Fields → List Text → Type 0
Repeats r i [] = Unit
Repeats r i (k ∷ ks) = (py_eq (get r k) (get i k) ≡ true) × Repeats r i ks

-- Intent and receipt carry the key that the intent's branches and the digest spell.
abbrev pub IsKeyed : Fields → Text → Type 0
IsKeyed c d =
    (key : Text) × (publication_idempotency_key
        (text_of (entry c (text "intent") (text "branch_namespace")))
        (text_of (entry c (text "intent") (text "base_branch"))) d
      ≡ ok key)
    × (entry c (text "intent") (text "idempotency_key") ≡ str key)
    × (entry c (text "action_receipt") (text "idempotency_key") ≡ str key)
    × (validate_base_branch (entry c (text "intent") (text "base_branch")) ≡ ok tt)

module _ (host : Host) where
  -- The staged change, its evidence and its verification are named by their digests.
  abbrev pub IsDigested : Fields → Text → Type 0
  IsDigested c d =
      (e v : Text) × (digest_of host c (text "staged_change") ≡ ok d)
      × AllName c (text "staged_change_digest") d digest_contracts
      × (digest_of host c (text "evidence_bundle") ≡ ok e)
      × (entry c (text "verification_report") (text "evidence_digest") ≡ str e)
      × (entry c (text "staged_change") (text "evidence_digest") ≡ str e)
      × (digest_of host c (text "verification_report") ≡ ok v)
      × (entry c (text "staged_change") (text "verification_digest") ≡ str v)
      × (entry c (text "verification_report") (text "verdict") ≡ str (text "pass"))

  -- The grant names the digest of the request.
  abbrev pub IsGranted : Fields → Type 0
  IsGranted c =
      (q : Text) × (digest_of host c (text "actuator_request") ≡ ok q)
      × (entry c (text "credential_use_grant") (text "request_digest") ≡ str q)

  -- All that an accepted chain is bound to.
  pub record IsBound (c : Fields) (d : Text) : Type 0 where
    pub subject : SameSubject c
    pub digested : IsDigested c d
    pub untainted : IsUntainted c
    pub allowed : entry c (text "policy_decision") (text "effect") ≡ str (text "allow")
    pub repeated :
        Repeats (contract c (text "actuator_request")) (contract c (text "intent")) request_fields
    pub granted : IsGranted c
    pub keyed : IsKeyed c d
