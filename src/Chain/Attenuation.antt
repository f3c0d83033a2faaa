-- ===== src/Chain/Attenuation.antt =====
-- A delegation that is accepted gives nothing that its parent does not hold.
use agent00x.Prelude.{
  ℕ, suc, ◌+◌, ◌<◌, Text, text, Bool, true, false, Kind, ok, raise_if, ◌≡◌, refl, arith,
  bind_returns, raise_if_passes, not-false, &&_split, ap, ◌∙◌, sym, Bool-cases, inl, inr,
}
use agent00x.Chain.Delegation.{
  members_of, is_int, int_of, in_items, is_subset, members_named, depth_is_int, validate_delegation,
}
use agent00x.Chain.Members.{chain_error, must_equal}
use agent00x.Values.{
  Value, null, bool, int, str, list, dict, pos, Fields, get, py_eq, Items, nil, cons, ℤ, negsuc,
  ge_ℤ, tuple, object,
}
use agent00x.Values.Equality.{py_eq-str_left}

abbrev pos_part : ℤ → ℕ
pos_part (pos n) = n
pos_part (negsuc n) = 0

abbrev neg_part : ℤ → ℕ
neg_part (pos n) = 0
neg_part (negsuc n) = suc n

infix 50 ◌<ℤ◌
abbrev pub ◌<ℤ◌ : ℤ → ℤ → Type 0
a <ℤ b = pos_part a + neg_part b < pos_part b + neg_part a

ge_ℤ-false : (a b : ℤ) → ge_ℤ a b ≡ false → a <ℤ b
unfolding ge_ℤ
ge_ℤ-false (pos a) (pos b) h = ground arith
ge_ℤ-false (pos a) (negsuc b) h = ground arith
ge_ℤ-false (negsuc a) (pos b) h = omega arith
ge_ℤ-false (negsuc a) (negsuc b) h = ground arith

-- The text is a member of the list or tuple in the field.
abbrev pub Holds : Fields → Text → Text → Type 0
Holds d k x = in_items (str x) (members_of (get d k)) ≡ true

is_subset-in :
    (xs ys : Items) (x : Text)
    → is_subset xs ys ≡ true
    → in_items (str x) xs ≡ true
    → in_items (str x) ys ≡ true
unfolding is_subset in_items
is_subset-in nil ys x s m = cc
is_subset-in (cons v vs) ys x s m = elim (Bool-cases (py_eq (str x) v)) [
  | inl here ↦ ap (λ w. in_items w ys) (sym (py_eq-str_left x v here)) ∙ (&&_split s).0
  | inr other ↦ is_subset-in vs ys x (&&_split s).1 (there other)
]
  where
    there : py_eq (str x) v ≡ false → in_items (str x) vs ≡ true
    there h = ground arith

depth_is_int-ok :
    (d : Fields) (k : Text) → depth_is_int d k ≡ ok tt → get d k ≡ int (int_of (get d k))
unfolding depth_is_int chain_error int_of
depth_is_int-ok d k h = an_int (get d k) (ground arith)
  where
    an_int : (v : Value) → is_int v ≡ true → v ≡ int (int_of v)
    an_int (int n) e = refl
    an_int null e = cc
    an_int (bool b) e = cc
    an_int (str s) e = cc
    an_int (list xs) e = cc
    an_int (tuple xs) e = cc
    an_int (dict f) e = cc
    an_int (object n) e = cc

-- The child acts for the parent's subject in the parent's process, with actions and resources
-- that the parent may give away, and fewer levels of delegation left.
abbrev pub Attenuates : Fields → Fields → Type 0
Attenuates parent child =
    (depth limit : ℤ) × ((x : Text)
      → Holds child (text "actions") x
      → Holds parent (text "delegable_actions") x)
    × ((x : Text) → Holds child (text "resources") x → Holds parent (text "resources") x)
    × (get child (text "remaining_delegation_depth") ≡ int depth)
    × (get parent (text "max_delegation_depth") ≡ int limit)
    × (depth <ℤ limit)
    × (py_eq (get child (text "issuer")) (get parent (text "subject")) ≡ true)
    × (py_eq (get child (text "process_id")) (get parent (text "process_id")) ≡ true)

must_equal-eq : (v w : Value) (m : Text) → must_equal v w m ≡ ok tt → py_eq v w ≡ true
unfolding must_equal chain_error
must_equal-eq v w m h = ground arith

-- A delegation that `_validate_delegation` accepts gives only actions and resources that the parent
-- grant holds for giving, in its process, issued by its subject, and with a smaller depth.
pub validate_delegation-Attenuates :
    (parent child : Fields) → validate_delegation parent child ≡ ok tt → Attenuates parent child
unfolding validate_delegation
validate_delegation-Attenuates parent child h =
    let (_, _, h1) = bind_returns (members_named child (text "actions")) _ h in
    let (_, _, h2) = bind_returns (members_named child (text "resources")) _ h1 in
    let (_, _, h3) = bind_returns (members_named parent (text "delegable_actions")) _ h2 in
    let (_, _, h4) = bind_returns (members_named parent (text "resources")) _ h3 in
    let (_, left, h5) =
      bind_returns (depth_is_int child (text "remaining_delegation_depth")) _ h4 in
    let (_, most, h6) = bind_returns (depth_is_int parent (text "max_delegation_depth")) _ h5 in
    let (_, issued, h7) = bind_returns (must_equal _ _ _) _ h6 in
    let (_, placed, h8) = bind_returns (must_equal _ _ _) _ h7 in
    let (actions, h9) = raise_if_passes _ _ _ _ h8 in
    let (resources, h10) = raise_if_passes _ _ _ _ h9 in
    (
      int_of (get child (text "remaining_delegation_depth")),
      int_of (get parent (text "max_delegation_depth")),
      λ x. is_subset-in _ _ x (not-false actions),
      λ x. is_subset-in _ _ x (not-false resources),
      depth_is_int-ok child _ left,
      depth_is_int-ok parent _ most,
      ge_ℤ-false _ _ (last _ _ h10),
      must_equal-eq _ _ _ issued,
      must_equal-eq _ _ _ placed,
    )
  where
    last : (t : Bool) (m : Text) → raise_if t Kind.contract_validation m ≡ ok tt → t ≡ false
    last t m h = ground arith
