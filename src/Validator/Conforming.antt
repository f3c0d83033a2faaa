-- ===== src/Validator/Conforming.antt =====
-- What a schema means: the conditions on an instance, at every depth, without their order or errors.
use agent00x.Prelude.{ℕ, ◌≤◌, Text, text, Bool, true, false, some, length, ◌≡◌}
use agent00x.Authority.{parse_time}
use agent00x.Chain.Delegation.{in_items}
use agent00x.Clock.{DateTime}
use agent00x.Host.{Host}
use agent00x.Validator.Keywords.{matches_type, in_enum, properties_of, entry_schema, items_schema}
use agent00x.Validator.Schemas.{unknown_keywords, items_of, count}
use agent00x.Values.{
  Value, null, bool, int, str, list, dict, pos, Fields, end, field, get, has, py_eq, Items, nil,
  cons, ℤ, ge_ℤ, tuple, object, size,
}

-- Type, constant and enumeration.
pub record HeadConforms (v : Value) (s : Fields) : Type 0 where
  pub known : unknown_keywords s ≡ false
  pub typed : (t : Text) → get s (text "type") ≡ str t → matches_type t v ≡ some true
  pub constant : has s (text "const") ≡ true → py_eq v (get s (text "const")) ≡ true
  pub listed : has s (text "enum") ≡ true → in_enum v (items_of (get s (text "enum"))) ≡ true

-- The length that a keyword bounds from below, or from above.
abbrev pub AtLeast : ℕ → Fields → Text → Type 0
AtLeast size s k = (n : ℕ) → get s k ≡ int (pos n) → n ≤ size

abbrev pub AtMost : ℕ → Fields → Text → Type 0
AtMost size s k = (n : ℕ) → get s k ≡ int (pos n) → size ≤ n

pub record NumberConforms (v : Value) (s : Fields) : Type 0 where
  pub lowest : (n m : ℤ) → v ≡ int n → get s (text "minimum") ≡ int m → ge_ℤ n m ≡ true
  pub highest : (n m : ℤ) → v ≡ int n → get s (text "maximum") ≡ int m → ge_ℤ m n ≡ true

pub record ObjectConforms (d s : Fields) : Type 0 where
  pub required :
      (k : Text) → in_items (str k) (items_of (get s (text "required"))) ≡ true → has d k ≡ true
  pub closed :
      (k : Text)
      → get s (text "additionalProperties") ≡ bool false
      → has d k ≡ true
      → has (properties_of s) k ≡ true
  pub fewest : AtLeast (size d) s (text "minProperties")
  pub most : AtMost (size d) s (text "maxProperties")

module _ (host : Host) (re_search : Text → Text → Bool) where
  pub record TextConforms (t : Text) (s : Fields) : Type 0 where
    pub fewest : AtLeast (length t) s (text "minLength")
    pub most : AtMost (length t) s (text "maxLength")
    pub matching : (p : Text) → get s (text "pattern") ≡ str p → re_search p t ≡ true
    pub dated :
        get s (text "format") ≡ str (text "date-time")
        → (moment : DateTime) × (parse_time host t ≡ some moment)

  mutual
    -- The instance conforms to the schema, and so do its members to theirs.
    pub data Conforms : Value → Fields → Type 0 where
      conforms :
          {v : Value} {s : Fields}
          → HeadConforms v s
          → NumberConforms v s
          → MembersConform v s
          → Conforms v s

    pub data MembersConform : Value → Fields → Type 0 where
      of_dict : {d s : Fields} → ObjectConforms d s → EntriesConform d s → MembersConform (dict d) s
      of_list :
          {xs : Items} {s : Fields}
          → AtLeast (count xs) s (text "minItems")
          → ((has s (text "items") ≡ true) → ItemsConform xs (items_schema s))
          → MembersConform (list xs) s
      of_text : {t : Text} {s : Fields} → TextConforms t s → MembersConform (str t) s
      of_null : {s : Fields} → MembersConform null s
      of_bool : {b : Bool} {s : Fields} → MembersConform (bool b) s
      of_int : {n : ℤ} {s : Fields} → MembersConform (int n) s
      of_tuple : {xs : Items} {s : Fields} → MembersConform (tuple xs) s
      of_object : {n : ℕ} {s : Fields} → MembersConform (object n) s

    pub data EntriesConform : Fields → Fields → Type 0 where
      no_entry : {s : Fields} → EntriesConform end s
      entry :
          {k : Text} {v : Value} {d s : Fields}
          → ((s' : Fields) (step : Text) → entry_schema k s ≡ some (s', step) → Conforms v s')
          → EntriesConform d s
          → EntriesConform (field k v d) s

    pub data ItemsConform : Items → Fields → Type 0 where
      no_member : {s : Fields} → ItemsConform nil s
      member :
          {v : Value} {vs : Items} {s : Fields}
          → Conforms v s
          → ItemsConform vs s
          → ItemsConform (cons v vs) s
