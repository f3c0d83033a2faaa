-- ===== src/Canary/Absence.antt =====
-- What the checks on all surfaces promise: nothing that they pass shows the canary.
use mathlib.Core.List.{Memᴰ}
use mathlib.Core.Path.{subst}
use agent00x.Prelude.{
  ℕ, ltb, length, is_empty_text, Text, text, text_eq_refl, member_text, Bool, true, false, Option,
  some, none, List, [], ◌∷◌, Kind, Result, ok, err, raise_if, ◌≡◌, refl, sym, ap, arith,
  if◌then◌else◌, Bool-cases, inl, inr, bind_returns, raise_if_passes, ok_injective,
}
use agent00x.Canary.{
  contains_canary_bounded, is_finding, findings, any_unnamed, canary_encoded, find_canary_surfaces,
  assert_canary_absent, any_leaked, max_canary_surfaces,
}
use agent00x.Canary.Leaves.{Heap}
use agent00x.Canary.Paths.{IsClear}
use agent00x.Canary.Verdicts.{contains_canary_bounded-IsClear}
use agent00x.Digests.Encoding.{utf8}
use mathlib.Core.List.Memᴰ

unreported : (o : Option (Result Bool)) → is_finding o ≡ false → o ≡ some (ok false)
unfolding is_finding
unreported none h = cc
unreported (some (err k m)) h = cc
unreported (some (ok true)) h = cc
unreported (some (ok false)) h = refl

listed :
    (b : Bool) (name : Text) (rest : List Text)
    → b ≡ true
    → member_text name (if b then name ∷ rest else rest) ≡ true
unfolding member_text
listed false name rest h = cc
listed true name rest h = ground (arith, text_eq_refl name)

still_listed :
    (b : Bool) (name other : Text) (rest : List Text)
    → member_text name rest ≡ true
    → member_text name (if b then other ∷ rest else rest) ≡ true
unfolding member_text
still_listed false name other rest h = h
still_listed true name other rest h = ground (arith, h)

module _ (heap : Heap) (canary : Text) (canary_bytes : List ℕ) where
  findings-listed :
      (name : Text) (root : ℕ) (surfaces : List (Text × ℕ))
      → Memᴰ (name, root) surfaces
      → is_finding (contains_canary_bounded heap canary canary_bytes root) ≡ true
      → member_text name (findings heap canary canary_bytes surfaces) ≡ true
  unfolding findings
  findings-listed name root [] within h = absurd (Memᴰ.not-nil within)
  findings-listed name root ((name', root') ∷ surfaces) (Memᴰ.head e) h =
      subst
        (λ (s : Text × ℕ).
          member_text name (
            if is_finding (contains_canary_bounded heap canary canary_bytes s.1)
            then s.0 ∷ findings heap canary canary_bytes surfaces
            else findings heap canary canary_bytes surfaces)
          ≡ true)
        e (listed _ name _ h)
  findings-listed name root ((name', root') ∷ surfaces) (Memᴰ.tail within) h =
      still_listed _ name name' _ (findings-listed name root surfaces within h)

  findings-IsClear :
      (name : Text) (root : ℕ) (surfaces : List (Text × ℕ))
      → Memᴰ (name, root) surfaces
      → member_text name (findings heap canary canary_bytes surfaces) ≡ false
      → IsClear heap canary canary_bytes 0 root
  findings-IsClear name root surfaces within absent =
      elim (Bool-cases (is_finding (contains_canary_bounded heap canary canary_bytes root))) [
        | inl e ↦ absurd (both (findings-listed name root surfaces within e) absent)
        | inr e ↦
            contains_canary_bounded-IsClear heap canary canary_bytes root
              (unreported (contains_canary_bounded heap canary canary_bytes root) e)
      ]
    where
      both : {b : Bool} → b ≡ true → b ≡ false → ⊥
      both h h' = cc

module _ (heap : Heap) (canary : Text) where
  find_canary_surfaces-findings :
      (surfaces : List (Text × ℕ)) (found : List Text)
      → find_canary_surfaces heap canary surfaces ≡ ok found
      → (canary_bytes : List ℕ) × (utf8 canary ≡ some canary_bytes)
        × (found ≡ findings heap canary canary_bytes surfaces)
  unfolding find_canary_surfaces
  find_canary_surfaces-findings surfaces found h =
      let (_, h1) =
        raise_if_passes (is_empty_text canary) Kind.value_error (text "canary must not be empty") _
          h in
      let (bytes, encoded, h2) = bind_returns (canary_encoded (utf8 canary)) _ h1 in
      let (_, h3) =
        raise_if_passes (ltb max_canary_surfaces (length surfaces)) Kind.value_error
          (text "surface count exceeds limit") _ h2 in
      let (_, h4) =
        raise_if_passes (any_unnamed surfaces) Kind.value_error
          (text "surface name must be a non-empty string") _ h3 in
      (bytes, canary_encoded-utf8 (utf8 canary) bytes encoded, sym (ok_injective _ _ h4))
    where
      canary_encoded-utf8 :
          (o : Option (List ℕ)) (bytes : List ℕ) → canary_encoded o ≡ ok bytes → o ≡ some bytes
      canary_encoded-utf8 none bytes h = cc
      canary_encoded-utf8 (some b) bytes h =
          let (_, h1) =
            raise_if_passes (ltb 1000000 (length b)) Kind.value_error
              (text "canary must not be empty") _ h in
          ap some (ok_injective b bytes h1)

  -- A surface that `find_canary_surfaces` does not name shows the canary nowhere, at any depth, as
  -- text, in a key, in bytes of its encoding or in a printed number, and holds nothing that the scan
  -- cannot look into: no object of another class, no nesting below 64 levels, and no cycle.
  pub find_canary_surfaces-IsClear :
      (surfaces : List (Text × ℕ)) (found : List Text) (name : Text) (root : ℕ)
      → find_canary_surfaces heap canary surfaces ≡ ok found
      → Memᴰ (name, root) surfaces
      → member_text name found ≡ false
      → (canary_bytes : List ℕ) × (utf8 canary ≡ some canary_bytes)
        × IsClear heap canary canary_bytes 0 root
  find_canary_surfaces-IsClear surfaces found name root h within absent =
      let (bytes, encoded, same) = find_canary_surfaces-findings surfaces found h in
      let unnamed = subst (λ ns. member_text name ns ≡ false) same absent in
      (bytes, encoded, findings-IsClear heap canary bytes name root surfaces within unnamed)

  -- Where `assert_canary_absent` returns, every surface is clear of the canary.
  pub assert_canary_absent-IsClear :
      (surfaces : List (Text × ℕ)) (name : Text) (root : ℕ)
      → assert_canary_absent heap canary surfaces ≡ ok tt
      → Memᴰ (name, root) surfaces
      → (canary_bytes : List ℕ) × (utf8 canary ≡ some canary_bytes)
        × IsClear heap canary canary_bytes 0 root
  unfolding assert_canary_absent any_leaked member_text
  assert_canary_absent-IsClear surfaces name root h within =
      let (found, at, h1) = bind_returns (find_canary_surfaces heap canary surfaces) _ h in
      let none_leaked = nothing_leaked found h1 in
      find_canary_surfaces-IsClear surfaces found name root at within
        (subst (λ ns. member_text name ns ≡ false) (sym none_leaked) refl)
    where
      nothing_leaked :
          (found : List Text)
          → raise_if (any_leaked found) Kind.runtime_error (text "credential canary found") ≡ ok tt
          → found ≡ []
      nothing_leaked [] h = refl
      nothing_leaked (f ∷ found) h = cc
