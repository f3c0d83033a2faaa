-- ===== src/Digests/Reordering.antt =====
-- Canonical JSON forgets the order of a dict's entries.
use agent00x.Prelude.{Text, ◌≡◌, refl, sym, ap, ◌∙◌, ◌≢◌, Option, none, some, List, [], ◌∷◌, arith}
use agent00x.Digests.{insert_entry, add_entry, render_fields, render, canonical_json}
use agent00x.Digests.Order.{text_lt_asymm, text_lt_total, text_lt_trans}
use agent00x.Values.{Value, dict, Fields, field}

-- Two dicts with the same entries, no key twice, in any order.
pub data Reordered : Fields → Fields → Type 0 where
  same : (d : Fields) → Reordered d d
  keep :
      (k : Text) (v : Value) {d e : Fields} → Reordered d e → Reordered (field k v d) (field k v e)
  swap :
      (k j : Text) (v w : Value) (d : Fields)
      → k ≢ j
      → Reordered (field k v (field j w d)) (field j w (field k v d))
  chain : {d e f : Fields} → Reordered d e → Reordered e f → Reordered d f

insert_entry_comm :
    (k j r s : Text) (es : List (Text × Text))
    → k ≢ j
    → insert_entry k r (insert_entry j s es) ≡ insert_entry j s (insert_entry k r es)
unfolding insert_entry
insert_entry_comm k j r s [] ne = ground (
  arith,
  text_lt_asymm k j,
  text_lt_asymm j k,
  text_lt_total k j ne,
  text_lt_total j k (λ e. ne (sym e)),
)
insert_entry_comm k j r s ((h, q) ∷ es) ne = ground (
  arith,
  text_lt_asymm k j,
  text_lt_asymm j k,
  text_lt_total k j ne,
  text_lt_total j k (λ e. ne (sym e)),
  text_lt_trans k j h,
  text_lt_trans j k h,
  insert_entry_comm k j r s es ne,
)

add_entry_comm :
    (k j : Text) (r s : Option Text) (es : Option (List (Text × Text)))
    → k ≢ j
    → add_entry k r (add_entry j s es) ≡ add_entry j s (add_entry k r es)
unfolding add_entry
add_entry_comm k j none none none ne = refl
add_entry_comm k j none none (some es) ne = refl
add_entry_comm k j none (some s) none ne = refl
add_entry_comm k j none (some s) (some es) ne = refl
add_entry_comm k j (some r) none none ne = refl
add_entry_comm k j (some r) none (some es) ne = refl
add_entry_comm k j (some r) (some s) none ne = refl
add_entry_comm k j (some r) (some s) (some es) ne = ap some (insert_entry_comm k j r s es ne)

render_fields-Reordered : {d e : Fields} → Reordered d e → render_fields d ≡ render_fields e
unfolding render
render_fields-Reordered (same d) = refl
render_fields-Reordered (keep k v r) = ap (add_entry k (render v)) (render_fields-Reordered r)
render_fields-Reordered (swap k j v w d ne) =
    add_entry_comm k j (render v) (render w) (render_fields d) ne
render_fields-Reordered (chain r q) = render_fields-Reordered r ∙ render_fields-Reordered q

-- The canonical JSON of a dict, or the error that it raises, does not depend on the order of its
-- entries, whatever their values.
pub canonical_json-Reordered :
    {d e : Fields} → Reordered d e → canonical_json (dict d) ≡ canonical_json (dict e)
unfolding canonical_json
canonical_json-Reordered r = rw (render_fields-Reordered r)
