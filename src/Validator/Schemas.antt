-- ===== src/Validator/Schemas.antt =====
-- src/app_contracts/validator.py: `validate_schema`, which refuses a malformed schema.
use agent00x.Prelude.{
  ℕ, suc, Text, text, text_eq, member_text, Bool, true, false, ◌&&◌, ◌||◌, not, Option, none, some,
  List, [], ◌∷◌, ◌++◌, Kind, Result, ok, err, raise_if, ◌>>◌, if◌then◌else◌,
}
use agent00x.Values.{
  Value, bool, int, str, list, dict, pos, Fields, end, field, get, has, is_str, Items, nil, cons, ℤ,
  ge_ℤ, is_dict,
}

abbrev pub supported_types : List Text
supported_types =
    text "object" ∷ text "array" ∷ text "string" ∷ text "integer" ∷ text "boolean" ∷ []

abbrev pub supported : List Text
supported =
    text "$schema"
    ∷ text "$id"
    ∷ text "title"
    ∷ text "description"
    ∷ text "type"
    ∷ text "additionalProperties"
    ∷ text "required"
    ∷ text "properties"
    ∷ text "const"
    ∷ text "enum"
    ∷ text "pattern"
    ∷ text "format"
    ∷ text "minLength"
    ∷ text "maxLength"
    ∷ text "minimum"
    ∷ text "maximum"
    ∷ text "minItems"
    ∷ text "items"
    ∷ text "minProperties"
    ∷ text "maxProperties"
    ∷ text "propertyNames"
    ∷ []

-- `set(schema) - _SUPPORTED` is not empty
unfoldable pub unknown_keywords : Fields → Bool
unfolding member_text
unknown_keywords end = false
unknown_keywords (field k v d) = not (member_text k supported) || unknown_keywords d

-- `isinstance(v, list)`, its items, and their number
unfoldable pub is_list : Value → Bool
is_list (list _) = true
is_list _ = false

unfoldable pub items_of : Value → Items
items_of (list xs) = xs
items_of _ = nil

unfoldable pub count : Items → ℕ
count nil = 0
count (cons v vs) = suc (count vs)

unfoldable pub all_str : Items → Bool
all_str nil = true
all_str (cons v vs) = is_str v && all_str vs

-- `isinstance(v, int) and not isinstance(v, bool)`
unfoldable pub is_int : Value → Bool
is_int (int _) = true
is_int _ = false

unfoldable pub int_or_zero : Value → ℤ
int_or_zero (int n) = n
int_or_zero _ = pos 0

-- `{name: dict}`
unfoldable pub all_dicts : Fields → Bool
all_dicts end = true
all_dicts (field k v d) = is_dict v && all_dicts d

unfoldable pub declared : Bool → Text → Text → Result (Unit {0})
declared t path m =
    raise_if (not t) Kind.runtime_error
      (text "invalid schema declaration at " ++ (path ++ (text ": " ++ m)))

-- `if k in schema and not test(schema[k]): raise …`
unfoldable pub keyword : Fields → Text → (Value → Bool) → Text → Text → Result (Unit {0})
unfolding declared
keyword schema k test path m = declared (not (has schema k) || test (get schema k)) path m

-- `if low in schema and high in schema and schema[low] > schema[high]: raise …`
unfoldable pub ordered : Fields → Text → Text → Text → Text → Result (Unit {0})
unfolding declared
ordered schema low high path m =
    declared
      (not (has schema low && has schema high)
        || ge_ℤ (int_or_zero (get schema high)) (int_or_zero (get schema low)))
      path m

unfoldable pub properties_declared : Value → Bool
unfolding all_dicts
properties_declared (dict d) = all_dicts d
properties_declared _ = false

unfoldable pub bool_or_dict : Value → Bool
bool_or_dict (bool _) = true
bool_or_dict (dict _) = true
bool_or_dict _ = false

unfoldable pub strings : Value → Bool
unfolding all_str
strings (list xs) = all_str xs
strings _ = false

unfoldable pub nonempty_list : Value → Bool
nonempty_list (list (cons _ _)) = true
nonempty_list _ = false

unfoldable pub supported_type : Value → Bool
unfolding member_text
supported_type (str s) = member_text s supported_types
supported_type _ = false

unfoldable pub is_count : Value → Bool
is_count (int (pos _)) = true
is_count _ = false

-- The loop over the keywords that are numbers.
unfoldable pub check_counts : Fields → Text → Result (Unit {0})
unfolding keyword is_int is_count
check_counts schema path = do
  keyword schema (text "minimum") is_int path (text "minimum must be a number")
  keyword schema (text "maximum") is_int path (text "maximum must be a number")
  keyword schema (text "minLength") is_int path (text "minLength must be a number")
  keyword schema (text "maxLength") is_int path (text "maxLength must be a number")
  keyword schema (text "minItems") is_int path (text "minItems must be a number")
  keyword schema (text "minProperties") is_int path (text "minProperties must be a number")
  keyword schema (text "minProperties") is_count path
      (text "minProperties must be a non-negative integer")
  keyword schema (text "maxProperties") is_int path (text "maxProperties must be a number")
  keyword schema (text "maxProperties") is_count path
      (text "maxProperties must be a non-negative integer")
  ordered schema (text "minProperties") (text "maxProperties") path
      (text "property bounds are inconsistent")
  ordered schema (text "minimum") (text "maximum") path (text "numeric bounds are inconsistent")

-- What the recursive calls on the value of one keyword give: of the value itself as a schema, and
-- of its entries as properties.
pub record Nested : Type 0 where
  pub keyword_name : Text
  pub itself : Text → Result (Unit {0})
  pub members : Text → Result (Unit {0})

nested : Text → List Nested → Option Nested
unfolding text_eq
nested k [] = none
nested k (n ∷ ns) = if text_eq n.keyword_name k then some n else nested k ns

call_itself : Option Nested → Text → Result (Unit {0})
call_itself none path = ok tt
call_itself (some n) path = n.itself path

call_members : Option Nested → Text → Result (Unit {0})
call_members none path = ok tt
call_members (some n) path = n.members path

-- The body of `validate_schema` on a dict.
unfoldable pub check_keywords : Fields → List Nested → Text → Result (Unit {0})
unfolding unknown_keywords keyword strings properties_declared bool_or_dict nonempty_list
    supported_type check_counts nested call_itself call_members
check_keywords schema calls path = do
  raise_if (unknown_keywords schema) Kind.runtime_error
      (text "unsupported schema keywords at " ++ path)
  keyword schema (text "required") strings path (text "required must be a list of strings")
  keyword schema (text "properties") properties_declared path
      (text "properties must map names to schemas")
  call_members (nested (text "properties") calls) path
  keyword schema (text "additionalProperties") bool_or_dict path
      (text "additionalProperties must be a boolean or schema")
  if is_dict (get schema (text "additionalProperties"))
      then call_itself (nested (text "additionalProperties") calls)
          (path ++ text ".<additionalProperties>")
      else ok tt
  keyword schema (text "propertyNames") is_dict path (text "propertyNames must be a schema")
  call_itself (nested (text "propertyNames") calls) (path ++ text ".<propertyNames>")
  keyword schema (text "enum") nonempty_list path (text "enum must be a non-empty list")
  keyword schema (text "type") supported_type path (text "unsupported type")
  check_counts schema path
  call_itself (nested (text "items") calls) (path ++ text "[]")

unfoldable mutual
  unfolding check_keywords

  -- `validate_schema`
  pub validate_schema : Value → Text → Result (Unit {0})
  validate_schema (dict d) path = check_keywords d (nested_calls d) path
  validate_schema _ path =
      err Kind.runtime_error
        (text "invalid schema declaration at " ++ (path ++ text ": schema must be an object"))

  pub nested_calls : Fields → List Nested
  nested_calls end = []
  nested_calls (field k v d) =
      record { keyword_name = k; itself = validate_schema v; members = validate_properties v }
      ∷ nested_calls d

  pub validate_properties : Value → Text → Result (Unit {0})
  validate_properties (dict d) path = validate_each d path
  validate_properties _ path = ok tt

  -- `for name, subschema in properties.items(): validate_schema(subschema, …)`
  pub validate_each : Fields → Text → Result (Unit {0})
  validate_each end path = ok tt
  validate_each (field k v d) path = do
    validate_schema v (path ++ (text "." ++ k))
    validate_each d path
