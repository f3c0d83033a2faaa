-- ===== src/Validator/Keywords.antt =====
-- src/app_contracts/validator.py: the tests of `_validate` that look at no member of the instance,
-- and what it reads from a schema.
use agent00x.Prelude.{
  ◌>>=◌, ◌>>◌, ℕ, Text, text, text_eq, Bool, true, false, ◌&&◌, ◌||◌, not, Option, none, some, ◌++◌,
  Kind, Result, ok, err, raise_if, if◌then◌else◌,
}
use agent00x.Chain.Delegation.{in_items}
use agent00x.Clock.{DateTime}
use agent00x.Digests.{decimal}
use agent00x.Validator.Schemas.{unknown_keywords, is_list, is_int, items_of}
use agent00x.Values.{
  Value, null, bool, int, str, pos, Fields, end, field, get, has, py_eq, is_str, text_of, Items,
  nil, cons, ℤ, ge_ℤ, is_bool, number_of_bool, is_dict, fields_of,
}

unfoldable pub is_none : Option DateTime → Bool
is_none none = true
is_none (some _) = false

unfoldable pub invalid : Bool → Text → Text → Result (Unit {0})
invalid t path m = raise_if t Kind.contract_validation (path ++ (text ": " ++ m))

-- The table of classes that `expected` is looked up in; `none` for a missing type.
unfoldable pub matches_type : Text → Value → Option Bool
unfolding text_eq
matches_type expected v =
    if text_eq expected (text "object")
    then some (is_dict v)
    else if text_eq expected (text "array")
    then some (is_list v)
    else if text_eq expected (text "string")
    then some (is_str v)
    else if text_eq expected (text "integer")
    then some (is_int v)
    else if text_eq expected (text "boolean")
    then some (is_bool v)
    else none

unfoldable pub type_verdict : Option Bool → Text → Text → Result (Unit {0})
unfolding invalid
type_verdict none expected path =
    err Kind.runtime_error (text "unsupported type " ++ (expected ++ (text " at " ++ path)))
type_verdict (some b) expected path = invalid (not b) path (text "expected " ++ expected)

-- `schema.get("type")`
unfoldable pub check_type : Value → Value → Text → Result (Unit {0})
unfolding matches_type type_verdict
check_type null v path = ok tt
check_type (str expected) v path = type_verdict (matches_type expected v) expected path
check_type _ v path = err Kind.type_error (text "unhashable type")

-- `type(member) is bool and member == instance`, of some member
unfoldable pub in_bools : Bool → Items → Bool
in_bools b nil = false
in_bools b (cons v vs) = (is_bool v && py_eq v (bool b)) || in_bools b vs

unfoldable pub in_enum : Value → Items → Bool
unfolding in_bools in_items
in_enum (bool b) members = in_bools b members
in_enum v members = in_items v members

-- An `int` or a `bool` as the number that Python compares.
unfoldable pub number_of : Value → Result ℤ
number_of (int n) = ok n
number_of (bool b) = ok (number_of_bool b)
number_of _ = err Kind.type_error (text "not supported between instances")

-- `n < schema.get(k, 0)` and `k in schema and n > schema[k]`, for a length
unfoldable pub too_few : ℕ → Fields → Text → Result Bool
unfolding number_of
too_few n schema k =
    if has schema k
    then (do bound ← number_of (get schema k); ok (not (ge_ℤ (pos n) bound)))
    else ok false

unfoldable pub too_many : ℕ → Fields → Text → Result Bool
unfolding number_of
too_many n schema k =
    if has schema k
    then (do bound ← number_of (get schema k); ok (not (ge_ℤ bound (pos n))))
    else ok false

unfoldable pub check_const : Value → Fields → Text → Result (Unit {0})
unfolding invalid
check_const v schema path =
    invalid (has schema (text "const") && not (py_eq v (get schema (text "const")))) path
      (text "expected constant")

unfoldable pub check_enum : Value → Fields → Text → Result (Unit {0})
unfolding invalid in_enum
check_enum v schema path =
    invalid (has schema (text "enum") && not (in_enum v (items_of (get schema (text "enum"))))) path
      (text "value is not in enum")

-- The tests of an instance before those of its members.
unfoldable pub check_head : Value → Fields → Text → Result (Unit {0})
unfolding unknown_keywords check_type check_const check_enum
check_head v schema path = do
  raise_if (unknown_keywords schema) Kind.runtime_error
      (text "unsupported schema keywords at " ++ path)
  check_type (get schema (text "type")) v path
  check_const v schema path
  check_enum v schema path

-- `if k in schema: if isinstance(instance, bool): raise …; if … instance < schema[k]: raise …`
unfoldable pub check_bound :
    Value → Fields → Text → (ℤ → ℤ → Bool) → Text → Text → Result (Unit {0})
unfolding invalid number_of
check_bound (int n) schema k violates path m =
    if has schema k
    then (do bound ← number_of (get schema k); invalid (violates n bound) path m)
    else ok tt
check_bound (bool b) schema k violates path m = invalid (has schema k) path (text "expected number")
check_bound _ schema k violates path m = ok tt

unfoldable pub check_numbers : Value → Fields → Text → Result (Unit {0})
unfolding check_bound
check_numbers v schema path = do
  check_bound v schema (text "minimum") (λ n bound. not (ge_ℤ n bound)) path (text "below minimum")
  check_bound v schema (text "maximum") (λ n bound. not (ge_ℤ bound n)) path (text "above maximum")

-- `[name for name in required if name not in instance]` is not empty
unfoldable pub any_missing : Items → Fields → Bool
any_missing nil d = false
any_missing (cons v vs) d = not (has d (text_of v)) || any_missing vs d

-- `set(instance) - set(properties)` is not empty
unfoldable pub any_extra : Fields → Fields → Bool
any_extra end properties = false
any_extra (field k v d) properties = not (has properties k) || any_extra d properties

-- `schema.get("additionalProperties") is False`
unfoldable pub is_false : Value → Bool
is_false (bool b) = not b
is_false _ = false

-- `schema.get("properties", {})`
unfoldable pub properties_of : Fields → Fields
properties_of schema = fields_of (get schema (text "properties"))

-- The schema of an entry: the named one, or the additional one.
unfoldable pub entry_schema : Text → Fields → Option (Fields × Text)
unfolding properties_of
entry_schema k schema =
    if has (properties_of schema) k
    then some (fields_of (get (properties_of schema) k), text "." ++ k)
    else if is_dict (get schema (text "additionalProperties"))
    then some (fields_of (get schema (text "additionalProperties")), text ".<additionalProperty>")
    else none

-- The verdict on an entry by its schema, if it has one, and then that on the entries after it.
unfoldable pub entry_verdict :
    Option (Fields × Text)
    → (Fields → Text → Result (Unit {0}))
    → Result (Unit {0})
    → Result (Unit {0})
entry_verdict none test rest = rest
entry_verdict (some (schema, step)) test rest = test schema step >> rest

unfoldable pub items_schema : Fields → Fields
items_schema schema = fields_of (get schema (text "items"))

unfoldable pub item_path : Text → ℕ → Text
unfolding decimal
item_path path index = path ++ (text "[" ++ (decimal index ++ text "]"))

-- The tests of an instance round those of its members.
unfoldable pub around : Value → Fields → Text → Result (Unit {0}) → Result (Unit {0})
unfolding check_head check_numbers
around v schema path members = do check_head v schema path; members; check_numbers v schema path
