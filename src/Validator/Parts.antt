-- ===== src/Validator/Parts.antt =====
-- What each group of tests of the validator establishes.
use mathlib.Core.Path.{subst}
use agent00x.Prelude.{
  ℕ, ◌≤◌, Text, text, text_eq, Bool, true, false, ◌&&◌, ◌||◌, not, Option, none, some, ok, ◌>>=◌,
  if◌then◌else◌, length, ◌≡◌, ◌≢◌, refl, arith, bind_returns, raise_if_passes, not-false,
  Bool-cases, Option-cases, inl, inr, sym, ap, ◌∙◌, text_eq_sound, ◌⊎◌,
}
use agent00x.Authority.{parse_time}
use agent00x.Chain.Delegation.{in_items}
use agent00x.Clock.{DateTime}
use agent00x.Host.{Host}
use agent00x.Validator.{check_text, check_object, check_names}
use agent00x.Validator.Conforming.{
  HeadConforms, AtLeast, AtMost, NumberConforms, ObjectConforms, TextConforms,
}
use agent00x.Validator.Keywords.{
  invalid, matches_type, type_verdict, check_type, in_enum, number_of, too_few, too_many,
  check_const, check_enum, check_head, check_bound, check_numbers, any_missing, any_extra, is_false,
  properties_of, is_none,
}
use agent00x.Validator.Schemas.{unknown_keywords, items_of}
use agent00x.Values.{
  Value, null, bool, int, str, pos, Fields, end, field, get, has, py_eq, text_of, Items, nil, cons,
  ℤ, ge_ℤ, size, lookup,
}
use agent00x.Values.Equality.{py_eq-str_left, py_eq-str_refl}

pub invalid-passes : (t : Bool) (path m : Text) → invalid t path m ≡ ok tt → t ≡ false
unfolding invalid
invalid-passes true path m h = cc
invalid-passes false path m h = refl

-- An entry that is not None is there.
has-get : (d : Fields) (k : Text) → get d k ≢ null → has d k ≡ true
unfolding get has
has-get d k h = elim (Option-cases (lookup k d)) [
  | inl missing ↦ absurd (h (rw (missing, get) refl))
  | inr found ↦ rw (found.1, has) refl
]

get-has : (d : Fields) (k : Text) (n : ℤ) → get d k ≡ int n → has d k ≡ true
get-has d k n h = has-get d k (λ e. clash (sym h ∙ e))
  where
    clash : int n ≡ null → ⊥
    clash e = cc

get-has_str : (d : Fields) (k s : Text) → get d k ≡ str s → has d k ≡ true
get-has_str d k s h = has-get d k (λ e. clash (sym h ∙ e))
  where
    clash : str s ≡ null → ⊥
    clash e = cc

type_verdict-true :
    (o : Option Bool) (t path : Text) → type_verdict o t path ≡ ok tt → o ≡ some true
unfolding type_verdict
type_verdict-true none t path h = cc
type_verdict-true (some true) t path h = refl
type_verdict-true (some false) t path h = absurd (ground arith)

pub check_head-Conforms :
    (v : Value) (s : Fields) (path : Text) → check_head v s path ≡ ok tt → HeadConforms v s
unfolding check_head
check_head-Conforms v s path h =
    let (known, h1) = raise_if_passes (unknown_keywords s) _ _ _ h in
    let (_, typed, h2) = bind_returns (check_type (get s (text "type")) v path) _ h1 in
    let (_, constant, h3) = bind_returns (check_const v s path) _ h2 in
    record {
      known = known;
      typed = λ t e. of_type t e typed;
      constant = λ here. of_const here constant;
      listed = λ here. of_enum here h3;
    }
  where
    of_type :
        (t : Text)
        → get s (text "type") ≡ str t
        → check_type (get s (text "type")) v path ≡ ok tt
        → matches_type t v ≡ some true
    of_type t e c = type_verdict-true (matches_type t v) t path (unfold check_type in (rw e at c))

    of_const :
        has s (text "const") ≡ true
        → check_const v s path ≡ ok tt
        → py_eq v (get s (text "const")) ≡ true
    of_const here c = unfold check_const in (let e = invalid-passes _ _ _ c in ground arith)

    of_enum :
        has s (text "enum") ≡ true
        → check_enum v s path ≡ ok tt
        → in_enum v (items_of (get s (text "enum"))) ≡ true
    of_enum here c = unfold check_enum in (let e = invalid-passes _ _ _ c in ground arith)

pub too_few-AtLeast : (n : ℕ) (s : Fields) (k : Text) → too_few n s k ≡ ok false → AtLeast n s k
unfolding too_few
too_few-AtLeast n s k h m e = let here = get-has s k (pos m) e in bounded (rw here at h)
  where
    bounded : (number_of (get s k) >>= λ bound. ok (not (ge_ℤ (pos n) bound))) ≡ ok false → m ≤ n
    bounded c = below (rw e at c)
      where
        below :
            (number_of (int (pos m)) >>= λ bound. ok (not (ge_ℤ (pos n) bound))) ≡ ok false → m ≤ n
        below b = unfold number_of ge_ℤ in (ground arith)

too_many-AtMost : (n : ℕ) (s : Fields) (k : Text) → too_many n s k ≡ ok false → AtMost n s k
unfolding too_many
too_many-AtMost n s k h m e = let here = get-has s k (pos m) e in bounded (rw here at h)
  where
    bounded : (number_of (get s k) >>= λ bound. ok (not (ge_ℤ bound (pos n)))) ≡ ok false → n ≤ m
    bounded c = below (rw e at c)
      where
        below :
            (number_of (int (pos m)) >>= λ bound. ok (not (ge_ℤ bound (pos n)))) ≡ ok false → n ≤ m
        below b = unfold number_of ge_ℤ in (ground arith)

-- A bound that a keyword declares is not violated.
check_bound-keeps :
    (n m : ℤ) (s : Fields) (k : Text) (violates : ℤ → ℤ → Bool) (path msg : Text)
    → get s k ≡ int m
    → check_bound (int n) s k violates path msg ≡ ok tt
    → violates n m ≡ false
unfolding check_bound
check_bound-keeps n m s k violates path msg e h =
    let here = get-has s k m e in bounded (rw here at h)
  where
    bounded :
        (number_of (get s k) >>= λ bound. invalid (violates n bound) path msg) ≡ ok tt
        → violates n m ≡ false
    bounded c = invalid-passes _ _ _ (unfold number_of in (rw e at c))

pub check_numbers-Conforms :
    (v : Value) (s : Fields) (path : Text) → check_numbers v s path ≡ ok tt → NumberConforms v s
unfolding check_numbers
check_numbers-Conforms v s path h =
    let low : ℤ → ℤ → Bool = λ n bound. not (ge_ℤ n bound) in
    let high : ℤ → ℤ → Bool = λ n bound. not (ge_ℤ bound n) in
    let (_, lowest, h1) = bind_returns (check_bound v s (text "minimum") low path _) _ h in
    record {
      lowest = λ n m e e'.
          not-false (check_bound-keeps n m s (text "minimum") low path _ e' (rw e at lowest));
      highest = λ n m e e'.
          not-false (check_bound-keeps n m s (text "maximum") high path _ e' (rw e at h1));
    }

any_missing-has :
    (vs : Items) (d : Fields) (k : Text)
    → any_missing vs d ≡ false
    → in_items (str k) vs ≡ true
    → has d k ≡ true
unfolding any_missing in_items text_of
any_missing-has nil d k h m = cc
any_missing-has (cons v vs) d k h m = elim (Bool-cases (py_eq (str k) v)) [
  | inl here ↦ present (rw (py_eq-str_left k v here) at h)
  | inr other ↦ any_missing-has vs d k (ground arith) (ground arith)
]
  where
    present : (not (has d k) || any_missing vs d) ≡ false → has d k ≡ true
    present p = ground arith

has-field :
    (j : Text) (v : Value) (d : Fields) (k : Text)
    → has (field j v d) k ≡ (if text_eq j k then true else has d k)
unfolding has lookup
has-field j v d k = ground arith

any_extra-has : (d p : Fields) (k : Text) → any_extra d p ≡ false → has d k ≡ true → has p k ≡ true
unfolding any_extra
any_extra-has end p k h m = absurd (unfold has lookup in (ground arith))
any_extra-has (field j v d) p k h m = elim (Bool-cases (text_eq j k)) [
  | inl same ↦ subst (λ i. has p i ≡ true) (text_eq_sound j k same) (ground arith)
  | inr other ↦ any_extra-has d p k (ground arith) (ground (arith, has-field j v d k))
]

pub check_object-Conforms :
    (host : Host) (re_search : Text → Text → Bool) (d s : Fields) (path : Text)
    → check_object host re_search d s path ≡ ok tt
    → ObjectConforms d s
unfolding check_object
check_object-Conforms host re_search d s path h =
    let (few, e1, h1) = bind_returns (too_few (size d) s (text "minProperties")) _ h in
    let (_, p1, h2) = bind_returns (invalid few _ _) _ h1 in
    let (many, e2, h3) = bind_returns (too_many (size d) s (text "maxProperties")) _ h2 in
    let (_, p2, h4) = bind_returns (invalid many _ _) _ h3 in
    let (_, _, h5) =
      bind_returns (check_names host re_search d (get s (text "propertyNames")) path) _ h4 in
    let (_, p3, h6) =
      bind_returns (invalid (any_missing (items_of (get s (text "required"))) d) _ _) _ h5 in
    let p4 =
      invalid-passes
        (is_false (get s (text "additionalProperties")) && any_extra d (properties_of s)) _ _ h6 in
    record {
      required = λ k. any_missing-has _ d k (invalid-passes _ _ _ p3);
      closed = λ k e. any_extra-has d (properties_of s) k (when_false e p4);
      fewest = too_few-AtLeast _ s _ (e1 ∙ ap ok (invalid-passes few _ _ p1));
      most = too_many-AtMost _ s _ (e2 ∙ ap ok (invalid-passes many _ _ p2));
    }
  where
    when_false :
        get s (text "additionalProperties") ≡ bool false
        → (is_false (get s (text "additionalProperties")) && any_extra d (properties_of s)) ≡ false
        → any_extra d (properties_of s) ≡ false
    when_false e q = unfold is_false in (rw e at q)

pub check_text-Conforms :
    (host : Host) (re_search : Text → Text → Bool) (t : Text) (s : Fields) (path : Text)
    → check_text host re_search t s path ≡ ok tt
    → TextConforms host re_search t s
unfolding check_text
check_text-Conforms host re_search t s path h =
    let (short, e1, h1) = bind_returns (too_few (length t) s (text "minLength")) _ h in
    let (_, p1, h2) = bind_returns (invalid short _ _) _ h1 in
    let (long, e2, h3) = bind_returns (too_many (length t) s (text "maxLength")) _ h2 in
    let (_, p2, h4) = bind_returns (invalid long _ _) _ h3 in
    let (_, p3, h5) =
      bind_returns
        (invalid (has s (text "pattern") && not (re_search (text_of (get s (text "pattern"))) t)) _
          _)
        _ h4 in
    record {
      fewest = too_few-AtLeast _ s _ (e1 ∙ ap ok (invalid-passes short _ _ p1));
      most = too_many-AtMost _ s _ (e2 ∙ ap ok (invalid-passes long _ _ p2));
      matching = λ p e. matched p e (invalid-passes _ _ _ p3);
      dated = λ e. moment e (invalid-passes _ _ _ h5) (Option-cases (parse_time host t));
    }
  where
    matched :
        (p : Text)
        → get s (text "pattern") ≡ str p
        → (has s (text "pattern") && not (re_search (text_of (get s (text "pattern"))) t)) ≡ false
        → re_search p t ≡ true
    matched p e q =
        let here = get-has_str s (text "pattern") p e in
        let q' : not (re_search (text_of (get s (text "pattern"))) t) ≡ false = ground arith in
        unfold text_of in (rw e at (not-false q'))

    moment :
        get s (text "format") ≡ str (text "date-time")
        → (py_eq (get s (text "format")) (str (text "date-time")) && is_none (parse_time host t))
          ≡ false
        → (parse_time host t ≡ none) ⊎ ((m : DateTime) × (parse_time host t ≡ some m))
        → (m : DateTime) × (parse_time host t ≡ some m)
    moment e q (inr found) = found
    moment e q (inl missing) =
        let same =
          ap (λ v. py_eq v (str (text "date-time"))) e ∙ py_eq-str_refl (text "date-time") in
        let q' : is_none (parse_time host t) ≡ false = ground arith in
        absurd (unfold is_none in (clash (rw missing at q')))
      where
        clash : true ≡ false → ⊥
        clash x = cc
