-- ===== src/Digests.antt =====
-- src/app_contracts/digests.py: canonical JSON and the digests over it. `hashlib.sha256` is a
-- parameter: the hex digest of a list of bytes.
pub mod Order
pub mod Encoding
pub mod Reordering
pub mod Shape
use agent00x.Prelude.{
  ℕ, zero, suc, ◌+◌, ◌-◌, ◌*◌, ◌/◌, ◌%◌, Text, text, Bool, true, false, ◌&&◌, Option, none, some,
  List, [], ◌∷◌, ◌++◌, Kind, Result, ok, err, ◌>>=◌, if◌then◌else◌, ltb, leb, ◌==◌,
}
use agent00x.Digests.Encoding.{utf8}
use agent00x.Digests.Order.{text_lt}
use agent00x.Values.{
  Value, null, bool, int, str, list, tuple, dict, object, ℤ, pos, negsuc, Items, nil, cons, Fields,
  end, field,
}

hex_digit : ℕ → ℕ
hex_digit n = if ltb n 10 then 48 + n else 87 + n

-- The escapes of `json.dumps(…, ensure_ascii=False)`.
escape_code : ℕ → Text
unfolding hex_digit
escape_code c =
    if c == 34
    then text "\\\""
    else if c == 92
    then text "\\\\"
    else if c == 10
    then text "\\n"
    else if c == 13
    then text "\\r"
    else if c == 9
    then text "\\t"
    else if c == 12
    then text "\\f"
    else if c == 8
    then text "\\b"
    else if ltb c 32
    then text "\\u00" ++ hex_digit (c / 16) ∷ hex_digit (c % 16) ∷ []
    else c ∷ []

escape : Text → Text
unfolding escape_code
escape [] = []
escape (c ∷ s) = escape_code c ++ escape s

quoted : Text → Text
unfolding escape
quoted s = 34 ∷ (escape s ++ 34 ∷ [])

-- Decimal digits, the last first found; `n` rounds are enough for `n`.
decimal_from : ℕ → ℕ → Text → Text
decimal_from zero n digits = digits
decimal_from (suc fuel) n digits =
    let longer = decimal_from fuel (n / 10) ((48 + n % 10) ∷ digits) in
    if ltb n 10 then (48 + n) ∷ digits else longer

unfoldable pub decimal : ℕ → Text
unfolding decimal_from
decimal n = decimal_from (suc n) n []

unfoldable pub render_int : ℤ → Text
unfolding decimal
render_int (pos n) = decimal n
render_int (negsuc n) = 45 ∷ decimal (suc n)

-- The entries of a dict as `sort_keys=True` orders them: by the code points of their keys.
pub insert_entry : Text → Text → List (Text × Text) → List (Text × Text)
unfolding text_lt
insert_entry k r [] = (k, r) ∷ []
insert_entry k r ((j, s) ∷ rest) =
    let further = insert_entry k r rest in
    if text_lt k j then (k, r) ∷ (j, s) ∷ rest else (j, s) ∷ further

join_entries : List (Text × Text) → Text
unfolding quoted
join_entries [] = []
join_entries ((k, r) ∷ []) = quoted k ++ 58 ∷ r
join_entries ((k, r) ∷ e ∷ es) = (quoted k ++ 58 ∷ r) ++ 44 ∷ join_entries (e ∷ es)

join_items : List Text → Text
join_items [] = []
join_items (r ∷ []) = r
join_items (r ∷ s ∷ rs) = r ++ 44 ∷ join_items (s ∷ rs)

pub add_entry : Text → Option Text → Option (List (Text × Text)) → Option (List (Text × Text))
unfolding insert_entry
add_entry k (some r) (some es) = some (insert_entry k r es)
add_entry k none es = none
add_entry k (some r) none = none

add_item : Option Text → Option (List Text) → Option (List Text)
add_item (some r) (some rs) = some (r ∷ rs)
add_item none rs = none
add_item (some r) none = none

braced : ℕ → Text → ℕ → Text
braced open_code body close_code = open_code ∷ (body ++ close_code ∷ [])

close_list : Option (List Text) → Option Text
unfolding braced join_items
close_list none = none
close_list (some rs) = some (braced 91 (join_items rs) 93)

pub close_dict : Option (List (Text × Text)) → Option Text
unfolding braced join_entries
close_dict none = none
close_dict (some es) = some (braced 123 (join_entries es) 125)

-- `json.dumps`; `none` where a value has no JSON.
unfoldable mutual
  unfolding quoted render_int add_entry add_item close_list close_dict

  pub render : Value → Option Text
  render null = some (text "null")
  render (bool true) = some (text "true")
  render (bool false) = some (text "false")
  render (int n) = some (render_int n)
  render (str s) = some (quoted s)
  render (list xs) = close_list (render_items xs)
  render (tuple xs) = close_list (render_items xs)
  render (dict d) = close_dict (render_fields d)
  render (object n) = none

  pub render_items : Items → Option (List Text)
  render_items nil = some []
  render_items (cons x xs) = add_item (render x) (render_items xs)

  pub render_fields : Fields → Option (List (Text × Text))
  render_fields end = some []
  render_fields (field k v fs) = add_entry k (render v) (render_fields fs)

pub encoded_or_raise : Option (List ℕ) → Result (List ℕ)
encoded_or_raise none = err Kind.value_error (text "canonical JSON is not encodable")
encoded_or_raise (some bytes) = ok bytes

pub encode_rendered : Option Text → Option (List ℕ)
unfolding utf8
encode_rendered none = none
encode_rendered (some s) = utf8 s

-- `canonical_json`
unfoldable pub canonical_json : Value → Result (List ℕ)
unfolding render encode_rendered encoded_or_raise
canonical_json v = encoded_or_raise (encode_rendered (render v))

module _ (sha256_hex : List ℕ → Text) where
  -- `sha256_digest`
  unfoldable pub sha256_digest : Value → Result Text
  unfolding canonical_json
  sha256_digest v = do bytes ← canonical_json v; ok (text "sha256:" ++ sha256_hex bytes)
