-- ===== src/Prelude/Results.antt =====
-- Exceptions as values, and methods of an object as functions of its state.
use mathlib.Core.Bool.{Bool, true, false}
use mathlib.Core.Logic.{◌⊎◌, inl, inr}
use mathlib.Core.Path.{◌≡◌, refl, ap}
use agent00x.Prelude.Strings.{Text}

-- The exception classes that the modelled code raises or tells apart.
pub data Kind : Type 0 where
  contract_validation value_error key_error type_error attribute_error : Kind
  invalid_transition process_store process_not_found version_conflict : Kind
  policy_unavailable recovery_required simulated_crash ledger_error seed_error : Kind
  integrity_error runtime_error event_conflict pre_dispatch store_error : Kind

pub data Result {ℓ} (A : Type ℓ) : Type ℓ where
  ok : A → Result A
  err : Kind → Text → Result A

infixl 5 ◌>>◌
module _ {ℓ κ} {A : Type ℓ} {B : Type κ} where
  infixl 5 ◌>>=◌
  -- What follows a call: an exception skips it.
  abbrev pub ◌>>=◌ : Result A → (A → Result B) → Result B
  call >>= rest = elim call [ ok value ↦ rest value | err kind message ↦ err kind message ]

  -- A call that returned was preceded by calls that returned.
  pub bind_returns :
      (call : Result A) (rest : A → Result B) {out : B}
      → (call >>= rest) ≡ ok out
      → (value : A) × (call ≡ ok value) × (rest value ≡ ok out)
  bind_returns (err kind message) rest raised = cc
  bind_returns (ok value) rest returned = (value, refl, returned)

abbrev pub ◌>>◌ {ℓ} : {B : Type ℓ} → Result (Unit {0}) → Result B → Result B
statement >> rest = statement >>= λ _. rest

-- `if test: raise kind(message)`
abbrev pub raise_if : Bool → Kind → Text → Result (Unit {0})
raise_if true k m = err k m
raise_if false k m = ok tt

-- `try: action except Exception: raise kind(message)`
abbrev pub or_raise {ℓ} : {A : Type ℓ} → Result A → Kind → Text → Result A
or_raise (ok a) k m = ok a
or_raise (err _ _) k m = err k m

pub raise_if_passes {ℓ} :
    {B : Type ℓ} (t : Bool) (k : Kind) (m : Text) (rest : Result B) {b : B}
    → (raise_if t k m >> rest) ≡ ok b
    → (t ≡ false) × (rest ≡ ok b)
raise_if_passes true k m rest h = cc
raise_if_passes false k m rest h = (refl, h)

-- What a method returns or raises, with the object that it leaves.
abbrev pub Outcome : Type 0 → Type 0 → Type 0
Outcome S A = Result A × S

pub Result-cases {ℓ} :
    {A : Type ℓ} (r : Result A) → ((a : A) × (r ≡ ok a)) ⊎ ((k : Kind) × (m : Text) × (r ≡ err k m))
Result-cases (ok a) = inl (a, refl)
Result-cases (err k m) = inr (k, m, refl)

pub ok_injective {ℓ} : {A : Type ℓ} (a b : A) → ok a ≡ ok b → a ≡ b
ok_injective {A = A} a b h = ap (λ (r : Result A). elim r as (λ _. A) [ ok x ↦ x | err _ _ ↦ a ]) h
