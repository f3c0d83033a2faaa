-- ===== src/Chain/Names.antt =====
-- The loops of `validate_chain` that collect values, and what they establish.
use agent00x.Prelude.{
  Text, member_text, true, not, List, [], ◌∷◌, ok, ◌==◌, length, ◌≡◌, arith, bind_returns,
  raise_if_passes, not-false, &&_split, text_eq_sound, text_eq_refl, sym, ap, ◌∙◌, ok_injective,
}
use agent00x.Chain.Members.{chain_error, must_equal, contract}
use agent00x.Chain.Validation.{
  add_text, binding_value, binding_values, require_single, is_singleton, entry,
}
use agent00x.Values.{Value, str, Fields, get, is_name, is_str}
use agent00x.Values.Equality.{py_eq-str_right, is_name-str}

-- Each of the contracts names this text in the field.
abbrev pub AllName : Fields → Text → Text → List Text → Type 0
AllName c k v [] = Unit
AllName c k v (n ∷ ns) = (entry c n k ≡ str v) × AllName c k v ns

binding_value-str :
    (c : Fields) (k n : Text) (v : Text) → binding_value c k n ≡ ok v → entry c n k ≡ str v
unfolding binding_value entry
binding_value-str c k n v h =
    let (_, h1) = raise_if_passes (not (is_str (get (contract c n) k))) _ _ _ h in
    let (named, h2) = raise_if_passes (not (is_name (get (contract c n) k))) _ _ _ h1 in
    is_name-str _ (not-false named) ∙ ap str (ok_injective _ v h2)

member-add_text_self : (x : Text) (vs : List Text) → member_text x (add_text x vs) ≡ true
unfolding add_text member_text
member-add_text_self x vs = ground (arith, text_eq_refl x)

member-add_text :
    (x y : Text) (vs : List Text) → member_text x vs ≡ true → member_text x (add_text y vs) ≡ true
unfolding add_text member_text
member-add_text x y vs h = ground arith

binding_values-member :
    (c : Fields) (k : Text) (ns vs out : List Text) (x : Text)
    → binding_values c k ns vs ≡ ok out
    → member_text x vs ≡ true
    → member_text x out ≡ true
unfolding binding_values
binding_values-member c k [] vs out x h m = rw (← ok_injective vs out h) m
binding_values-member c k (n ∷ ns) vs out x h m =
    let (v, _, h1) = bind_returns (binding_value c k n) _ h in
    binding_values-member c k ns (add_text v vs) out x h1 (member-add_text x v vs m)

pub binding_values-AllName :
    (c : Fields) (k : Text) (ns vs out : List Text) (v : Text)
    → binding_values c k ns vs ≡ ok out
    → ((x : Text) → member_text x out ≡ true → x ≡ v)
    → AllName c k v ns
unfolding binding_values
binding_values-AllName c k [] vs out v h only = tt
binding_values-AllName c k (n ∷ ns) vs out v h only =
    let (w, at, h1) = bind_returns (binding_value c k n) _ h in
    let m = binding_values-member c k ns (add_text w vs) out w h1 (member-add_text_self w vs) in
    (
      binding_value-str c k n w at ∙ ap str (only w m),
      binding_values-AllName c k ns (add_text w vs) out v h1 only,
    )

only_member :
    (out : List Text)
    → (length out == 1) ≡ true
    → (v : Text) × ((x : Text) → member_text x out ≡ true → x ≡ v)
unfolding member_text
only_member [] h = absurd (ground arith)
only_member (v ∷ []) h = (v, λ x m. text_eq_sound x v (ground arith))
only_member (v ∷ w ∷ out) h = absurd (ground arith)

pub require_single-only :
    (k : Text) (out : List Text)
    → require_single k out ≡ ok tt
    → (v : Text) × ((x : Text) → member_text x out ≡ true → x ≡ v)
unfolding require_single chain_error
require_single-only k out h = only_member out (ground arith)

pub is_singleton-only :
    (d : Text) (out : List Text)
    → is_singleton d out ≡ true
    → (x : Text) → member_text x out ≡ true
    → x ≡ d
unfolding is_singleton
is_singleton-only d out h x m =
    let (one, mine) = &&_split h in
    let (v, only) = only_member out one in only x m ∙ sym (only d mine)

pub must_equal-str : (v : Value) (s : Text) (m : Text) → must_equal v (str s) m ≡ ok tt → v ≡ str s
unfolding must_equal chain_error
must_equal-str v s m h = py_eq-str_right v s (ground arith)
