-- ===== src/Validator.antt =====
-- src/app_contracts/validator.py: the JSON Schema subset. `re.search` is a parameter. A message
-- leaves out the values that the code prints into it.
pub mod Keywords
pub mod Schemas
pub mod Conforming
pub mod Parts
pub mod Accepts
use agent00x.Prelude.{
  ◌>>=◌, ◌>>◌, ℕ, suc, Text, text, Bool, ◌&&◌, not, ◌++◌, Result, ok, if◌then◌else◌, length,
}
use agent00x.Authority.{parse_time}
use agent00x.Host.{Host}
use agent00x.Validator.Keywords.{
  any_extra, any_missing, around, check_head, check_numbers, entry_schema, entry_verdict, invalid,
  is_false, is_none, item_path, items_schema, properties_of, too_few, too_many,
}
use agent00x.Validator.Schemas.{validate_schema, items_of, count}
use agent00x.Values.{
  Value, null, str, list, dict, Fields, end, field, get, has, py_eq, text_of, Items, nil, cons,
  size, fields_of,
}

module _ (host : Host) (re_search : Text → Text → Bool) where
  -- The tests of a `str`.
  unfoldable pub check_text : Text → Fields → Text → Result (Unit {0})
  unfolding too_few too_many invalid parse_time is_none
  check_text s schema path = do
    short ← too_few (length s) schema (text "minLength")
    invalid short path (text "string is too short")
    long ← too_many (length s) schema (text "maxLength")
    invalid long path (text "string is too long")
    invalid
        (has schema (text "pattern") && not (re_search (text_of (get schema (text "pattern"))) s))
        path (text "pattern mismatch")
    invalid
        (py_eq (get schema (text "format")) (str (text "date-time")) && is_none (parse_time host s))
        path (text "invalid date-time")

  -- `_validate` of a `str`, which has no members
  unfoldable pub validate_text : Text → Fields → Text → Result (Unit {0})
  unfolding check_head check_text check_numbers
  validate_text s schema path = do
    check_head (str s) schema path
    check_text s schema path
    check_numbers (str s) schema path

  -- `for name in instance: _validate(name, property_names, …)`
  unfoldable pub check_names : Fields → Value → Text → Result (Unit {0})
  unfolding validate_text
  check_names d null path = ok tt
  check_names end names path = ok tt
  check_names (field k v d) names path = do
    validate_text k (fields_of names) (path ++ text ".<propertyName>")
    check_names d names path

  -- The tests of a dict before those of its entries.
  unfoldable pub check_object : Fields → Fields → Text → Result (Unit {0})
  unfolding too_few too_many invalid check_names any_missing any_extra is_false properties_of
  check_object d schema path = do
    few ← too_few (size d) schema (text "minProperties")
    invalid few path (text "too few properties")
    many ← too_many (size d) schema (text "maxProperties")
    invalid many path (text "too many properties")
    check_names d (get schema (text "propertyNames")) path
    invalid (any_missing (items_of (get schema (text "required"))) d) path (text "missing fields")
    invalid
        (is_false (get schema (text "additionalProperties")) && any_extra d (properties_of schema))
        path (text "unknown fields")

  unfoldable mutual
    unfolding around check_object check_text too_few invalid items_schema item_path entry_verdict

    -- The tests of a dict, of a list and of a `str`.
    pub validate_members : Value → Fields → Text → Result (Unit {0})
    validate_members (dict d) schema path = do
      check_object d schema path
      validate_fields d schema path
    validate_members (list xs) schema path = do
      few ← too_few (count xs) schema (text "minItems")
      invalid few path (text "too few items")
      validate_items xs 0 schema path
    validate_members (str s) schema path = check_text s schema path
    validate_members _ schema path = ok tt

    pub validate_fields : Fields → Fields → Text → Result (Unit {0})
    validate_fields end schema path = ok tt
    validate_fields (field k v d) schema path =
        entry_verdict (entry_schema k schema)
          (λ sub step. around v sub (path ++ step) (validate_members v sub (path ++ step)))
          (validate_fields d schema path)

    pub validate_items : Items → ℕ → Fields → Text → Result (Unit {0})
    validate_items nil index schema path = ok tt
    validate_items (cons v vs) index schema path =
        if has schema (text "items")
        then (do
          around v (items_schema schema) (item_path path index)
              (validate_members v (items_schema schema) (item_path path index))
          validate_items vs (suc index) schema path)
        else ok tt

  -- `_validate`
  unfoldable pub validate_value : Value → Fields → Text → Result (Unit {0})
  unfolding around validate_members
  validate_value v schema path = around v schema path (validate_members v schema path)

  -- `validate`
  unfoldable pub validate : Value → Value → Text → Result (Unit {0})
  unfolding validate_schema validate_value
  validate instance schema path = do
    validate_schema schema path
    validate_value instance (fields_of schema) path
