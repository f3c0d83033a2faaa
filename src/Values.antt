-- ===== src/Values.antt =====
-- The values of Python that the contracts are made of: what `json.loads` returns, tuples, and
-- `object n` for any object of another class, which compares by identity. Floats are not modelled.
-- A dict is its entries in order, keyed by strings, no key twice.
pub mod Equality
pub mod Dicts
use agent00x.Prelude.{
  ℕ, Text, text_eq, is_empty_text, Bool, true, false, ◌&&◌, ◌||◌, not, Option, none, some, List, [],
  ◌∷◌, Kind, Result, ok, err, if◌then◌else◌, suc, ltb, leb, ◌==◌, member_text,
}

-- `negsuc n` is -(n + 1)
pub data ℤ : Type 0 where
  pos : ℕ → ℤ
  negsuc : ℕ → ℤ

mutual
  pub data Value : Type 0 where
    null : Value
    bool : Bool → Value
    int : ℤ → Value
    str : Text → Value
    list : Items → Value
    tuple : Items → Value
    dict : Fields → Value
    object : ℕ → Value

  pub data Items : Type 0 where
    nil : Items
    cons : Value → Items → Items

  pub data Fields : Type 0 where
    end : Fields
    field : Text → Value → Fields → Fields

-- `a >= b` on integers
unfoldable pub ge_ℤ : ℤ → ℤ → Bool
ge_ℤ (pos a) (pos b) = leb b a
ge_ℤ (pos a) (negsuc b) = true
ge_ℤ (negsuc a) (pos b) = false
ge_ℤ (negsuc a) (negsuc b) = leb a b

unfoldable pub eq_ℤ : ℤ → ℤ → Bool
eq_ℤ (pos a) (pos b) = a == b
eq_ℤ (negsuc a) (negsuc b) = a == b
eq_ℤ _ _ = false

-- `d.get(k)` with `none` for a missing key
unfoldable pub lookup : Text → Fields → Option Value
unfolding text_eq
lookup k end = none
lookup k (field j v fs) = if text_eq j k then some v else lookup k fs

-- `d.get(k)`
unfoldable pub get : Fields → Text → Value
unfolding lookup
get d k = elim (lookup k d) [ none ↦ null | some v ↦ v ]

-- `d[k]`
unfoldable pub item : Fields → Text → Result Value
unfolding lookup
item d k = elim (lookup k d) [ none ↦ err Kind.key_error k | some v ↦ ok v ]

-- `k in d`
unfoldable pub has : Fields → Text → Bool
unfolding lookup
has d k = elim (lookup k d) [ none ↦ false | some _ ↦ true ]

-- `len(d)`
unfoldable pub size : Fields → ℕ
size end = 0
size (field _ _ fs) = suc (size fs)

-- Python's `bool` is a subclass of `int`: `True == 1`.
unfoldable pub number_of_bool : Bool → ℤ
number_of_bool true = pos 1
number_of_bool false = pos 0

-- `a == b`
unfoldable mutual
  unfolding lookup number_of_bool eq_ℤ text_eq size

  pub py_eq : Value → Value → Bool
  py_eq null null = true
  py_eq (bool a) (bool b) = eq_ℤ (number_of_bool a) (number_of_bool b)
  py_eq (bool a) (int n) = eq_ℤ (number_of_bool a) n
  py_eq (int m) (bool b) = eq_ℤ m (number_of_bool b)
  py_eq (int m) (int n) = eq_ℤ m n
  py_eq (str s) (str t) = text_eq s t
  py_eq (list xs) (list ys) = items_eq xs ys
  py_eq (tuple xs) (tuple ys) = items_eq xs ys
  py_eq (dict d) (dict e) = size d == size e && included d e
  py_eq (object m) (object n) = m == n
  py_eq _ _ = false

  pub items_eq : Items → Items → Bool
  items_eq nil nil = true
  items_eq (cons x xs) (cons y ys) = py_eq x y && items_eq xs ys
  items_eq _ _ = false

  pub included : Fields → Fields → Bool
  included end e = true
  included (field k v d) e =
      (elim (lookup k e) [ none ↦ false | some w ↦ py_eq v w ]) && included d e

-- `isinstance(v, bool)`
unfoldable pub is_bool : Value → Bool
is_bool (bool _) = true
is_bool _ = false

-- `isinstance(v, str)`
unfoldable pub is_str : Value → Bool
is_str (str _) = true
is_str _ = false

-- `isinstance(v, str) and v`
unfoldable pub is_name : Value → Bool
is_name (str s) = not (is_empty_text s)
is_name _ = false

-- `v is True`
unfoldable pub is_true : Value → Bool
is_true (bool b) = b
is_true _ = false

-- `isinstance(v, dict)`
unfoldable pub is_dict : Value → Bool
is_dict (dict _) = true
is_dict _ = false

-- The text of a `str`; `""` for any other value.
unfoldable pub text_of : Value → Text
text_of (str s) = s
text_of _ = []

-- The entries of a dict; none for any other value.
unfoldable pub fields_of : Value → Fields
fields_of (dict d) = d
fields_of _ = end

-- `v in {…}` for a set of strings. Every `str` is hashed and compared; no other value equals one.
unfoldable pub in_names : Value → List Text → Bool
unfolding member_text
in_names (str s) names = member_text s names
in_names _ names = false

-- `if not isinstance(v, dict): raise kind(message)`
unfoldable pub as_dict : Value → Kind → Text → Result Fields
as_dict (dict d) k m = ok d
as_dict _ k m = err k m
