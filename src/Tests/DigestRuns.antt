-- ===== src/Tests/DigestRuns.antt =====
-- src/app_contracts/digests.py on concrete inputs.
use agent00x.Prelude.{text, true, ◌≡◌, ◌≢◌, refl, ok, text_eq, ap, false}
use agent00x.Digests.{canonical_json}
use agent00x.Digests.Reordering.{swap, canonical_json-Reordered}
use agent00x.Values.{Fields, end, field, int, bool, pos, dict}

abbrev by_id : Fields
by_id = field (text "id") (int (pos 7)) (field (text "ok") (bool true) end)

abbrev by_ok : Fields
by_ok = field (text "ok") (bool true) (field (text "id") (int (pos 7)) end)

distinct_keys : text "id" ≢ text "ok"
unfolding text text_eq
distinct_keys h = never (ap (text_eq (text "id")) h)
  where
    never : true ≡ false → ⊥
    never e = cc

rendered : canonical_json (dict by_ok) ≡ ok (text "{\"id\":7,\"ok\":true}")
unfolding canonical_json text
rendered = refl

canonical_json-Reordered_example : canonical_json (dict by_id) ≡ canonical_json (dict by_ok)
canonical_json-Reordered_example =
    canonical_json-Reordered
      (swap (text "id") (text "ok") (int (pos 7)) (bool true) end distinct_keys)
