-- ===== src/Broker/Binding.antt =====
-- What stands behind every channel that the broker opens.
use mathlib.Core.Path.{subst}
use agent00x.Prelude.{
  ok_injective, ap, not-false, ◌∙◌, ℕ, ◌<◌, Text, text, Bool, true, false, not, Option, none, some,
  List, [], ◌∷◌, Result, ok, ◌>>◌, leb, ◌≡◌, refl, arith, bind_returns,
}
use agent00x.ApprovalSignature.{has_all}
use agent00x.Authority.{parse_time}
use agent00x.Broker.{
  broker_error, as_record, bindings_named, aware_clock, check_binding, expiry_of, check_lifetime,
  validate_credential_use_grant, identity_fields, required_grant_fields, required_request_fields,
}
use agent00x.Clock.{DateTime}
use agent00x.Digests.{sha256_digest}
use agent00x.Host.{Host}
use agent00x.Values.{
  is_true, Value, str, dict, Fields, get, py_eq, is_name, is_str, text_of, as_dict,
}
use agent00x.Values.Dicts.{as_dict-ok}
use agent00x.Values.Equality.{py_eq-str_right, names-eq}
use agent00x.Workflow.{Object, instance_of, foreign}

passed {ℓ} :
    {B : Type ℓ} (t : Bool) (m : Text) (rest : Result B) {b : B}
    → (broker_error t m >> rest) ≡ ok b
    → (t ≡ false) × (rest ≡ ok b)
unfolding broker_error
passed true m rest h = cc
passed false m rest h = (refl, h)

as_record-ok :
    (v : Value) (ks : List Text) (m : Text) (d : Fields) → as_record v ks m ≡ ok d → v ≡ dict d
unfolding as_record
as_record-ok v ks m d h =
    let (d', at, h1) = bind_returns (as_dict v _ _) _ h in
    let (_, h2) = passed (not (has_all d' ks)) m (ok d') h1 in
    as_dict-ok v _ _ d' at ∙ ap dict (ok_injective d' d h2)

aware_clock-ok :
    (now : Object DateTime) (moment : ℕ)
    → aware_clock now ≡ ok moment
    → (t : DateTime) × (now ≡ instance_of t) × (t.aware ≡ true) × (t.instant ≡ moment)
unfolding aware_clock
aware_clock-ok foreign moment h = cc
aware_clock-ok (instance_of t) moment h = (t, refl, ground arith, ground arith)

expiry_of-ok :
    (o : Option DateTime) (moment : ℕ)
    → expiry_of o ≡ ok moment
    → (t : DateTime) × (o ≡ some t) × (t.aware ≡ true) × (t.instant ≡ moment)
unfolding expiry_of
expiry_of-ok none moment h = cc
expiry_of-ok (some t) moment h = (t, refl, ground arith, ground arith)

-- The two records name the same non-empty string in each listed field.
abbrev pub SameNames : Fields → Fields → List Text → Type 0
SameNames g r [] = Unit
SameNames g r (k ∷ ks) = (is_name (get r k) ≡ true) × (get g k ≡ get r k) × SameNames g r ks

bindings_named-IsName :
    (g r : Fields) (k : Text) (ks : List Text)
    → bindings_named g r (k ∷ ks) ≡ ok tt
    → (is_name (get g k) ≡ true) × (is_name (get r k) ≡ true) × (bindings_named g r ks ≡ ok tt)
unfolding bindings_named
bindings_named-IsName g r k ks h =
    let (g1, h1) = passed (not (is_name (get g k))) _ _ h in
    let (r1, h2) = passed (not (is_name (get r k))) _ _ h1 in (not-false g1, not-false r1, h2)

SameNames-cons :
    (g r : Fields) (k : Text) (ks : List Text)
    → bindings_named g r (k ∷ ks) ≡ ok tt
    → py_eq (get g k) (get r k) ≡ true
    → SameNames g r ks
    → SameNames g r (k ∷ ks)
SameNames-cons g r k ks h e rest =
    let (gn, rn, _) = bindings_named-IsName g r k ks h in
    (rn, names-eq (get g k) (get r k) gn rn e, rest)

identities-SameNames :
    (g r : Fields)
    → bindings_named g r identity_fields ≡ ok tt
    → py_eq (get g (text "actuator_id")) (get r (text "actuator_id")) ≡ true
    → py_eq (get g (text "repository_id")) (get r (text "repository_id")) ≡ true
    → py_eq (get g (text "operation")) (get r (text "operation")) ≡ true
    → SameNames g r identity_fields
identities-SameNames g r h e1 e2 e3 =
    let last = text "operation" ∷ [] in
    let (_, _, h1) =
      bindings_named-IsName g r (text "actuator_id") (text "repository_id" ∷ last) h in
    let (_, _, h2) = bindings_named-IsName g r (text "repository_id") last h1 in
    SameNames-cons g r (text "actuator_id") (text "repository_id" ∷ last) h e1 (
      SameNames-cons g r (text "repository_id") last h1 e2
        (SameNames-cons g r (text "operation") [] h2 e3 tt))

passed_last : (t : Bool) (m : Text) → broker_error t m ≡ ok tt → t ≡ false
unfolding broker_error
passed_last true m h = cc
passed_last false m h = refl

module _ (host : Host) where
  -- The grant is for this request alone, once, and stands at the time of use.
  abbrev pub IsScoped : Value → Value → Object DateTime → Fields → Type 0
  IsScoped credential_grant actuator_request now g =
      (r : Fields) × (d : Text) × (t until : DateTime) × (credential_grant ≡ dict g)
      × (actuator_request ≡ dict r)
      × (now ≡ instance_of t)
      × SameNames g r identity_fields
      × (get g (text "credential_class") ≡ str (text "github-app-installation"))
      × (sha256_digest host.sha256_hex actuator_request ≡ ok d)
      × (get g (text "request_digest") ≡ str d)
      × (is_true (get g (text "single_use")) ≡ true)
      × (parse_time host (text_of (get g (text "expires_at"))) ≡ some until)
      × (until.aware ≡ true)
      × (t.aware ≡ true)
      × (t.instant < until.instant)

  check_lifetime-ok :
      (g : Fields) (moment : ℕ)
      → check_lifetime host g moment ≡ ok tt
      → (until : DateTime) × (parse_time host (text_of (get g (text "expires_at"))) ≡ some until)
        × (until.aware ≡ true)
        × (moment < until.instant)
  unfolding check_lifetime
  check_lifetime-ok g moment h =
      let (_, h1) = passed (not (is_str (get g (text "expires_at")))) _ _ h in
      let (limit, at, h2) =
        bind_returns (expiry_of (parse_time host (text_of (get g (text "expires_at"))))) _ h1 in
      let (until, e, aware, same) = expiry_of-ok _ limit at in
      let late = passed_last (leb limit moment) _ h2 in (until, e, aware, ground arith)

  check_binding-ok :
      (g r : Fields) (digest : Result Text)
      → check_binding g r digest ≡ ok tt
      → (d : Text) × (get g (text "credential_class") ≡ str (text "github-app-installation"))
        × (py_eq (get g (text "actuator_id")) (get r (text "actuator_id")) ≡ true)
        × (py_eq (get g (text "repository_id")) (get r (text "repository_id")) ≡ true)
        × (py_eq (get g (text "operation")) (get r (text "operation")) ≡ true)
        × (digest ≡ ok d)
        × (get g (text "request_digest") ≡ str d)
        × (is_true (get g (text "single_use")) ≡ true)
  unfolding check_binding
  check_binding-ok g r digest h =
      let (e1, h1) =
        passed
          (not (py_eq (get g (text "credential_class")) (str (text "github-app-installation")))) _ _
          h in
      let (e2, h2) =
        passed (not (py_eq (get g (text "actuator_id")) (get r (text "actuator_id")))) _ _ h1 in
      let (e3, h3) =
        passed (not (py_eq (get g (text "repository_id")) (get r (text "repository_id")))) _ _ h2 in
      let (e4, h4) =
        passed (not (py_eq (get g (text "operation")) (get r (text "operation")))) _ _ h3 in
      let (d, at, h5) = bind_returns digest _ h4 in
      let (e5, h6) = passed (not (py_eq (get g (text "request_digest")) (str d))) _ _ h5 in
      let e6 = passed_last (not (is_true (get g (text "single_use")))) _ h6 in
      (
        d,
        py_eq-str_right _ _ (not-false e1),
        not-false e2,
        not-false e3,
        not-false e4,
        at,
        py_eq-str_right _ _ (not-false e5),
        not-false e6,
      )

  pub validate-IsScoped :
      (credential_grant actuator_request : Value) (now : Object DateTime) (g : Fields)
      → validate_credential_use_grant host credential_grant actuator_request now ≡ ok g
      → IsScoped credential_grant actuator_request now g
  unfolding validate_credential_use_grant
  validate-IsScoped credential_grant actuator_request now g h =
      let (moment, clock, h1) = bind_returns (aware_clock now) _ h in
      let (g', eg, h2) = bind_returns (as_record credential_grant required_grant_fields _) _ h1 in
      let (r, er, h3) = bind_returns (as_record actuator_request required_request_fields _) _ h2 in
      let (_, named, h4) = bind_returns (bindings_named g' r identity_fields) _ h3 in
      let (_, h5) = passed (not (is_name (get r (text "base_branch")))) _ _ h4 in
      let (_, h6) = passed (not (is_name (get g' (text "credential_grant_id")))) _ _ h5 in
      let (_, bound, h7) =
        bind_returns (check_binding g' r (sha256_digest host.sha256_hex (dict r))) _ h6 in
      let (_, lives, h8) = bind_returns (check_lifetime host g' moment) _ h7 in
      let same = ok_injective g' g h8 in
      let (t, now_is, awake, at_moment) = aware_clock-ok now moment clock in
      let (d, class, e1, e2, e3, hashed, digest, single) = check_binding-ok g' r _ bound in
      let (until, expiry, aware, before) = check_lifetime-ok g' moment lives in
      subst (IsScoped credential_grant actuator_request now) same (
        r,
        d,
        t,
        until,
        as_record-ok credential_grant required_grant_fields _ g' eg,
        as_record-ok actuator_request required_request_fields _ r er,
        now_is,
        identities-SameNames g' r named e1 e2 e3,
        class,
        ap (sha256_digest host.sha256_hex)
              (as_record-ok actuator_request required_request_fields _ r er)
            ∙ hashed,
        digest,
        single,
        expiry,
        aware,
        awake,
        rw at_moment before,
      )
