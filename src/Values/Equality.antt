-- ===== src/Values/Equality.antt =====
-- Python's `==` at strings decides equality.
use agent00x.Prelude.{Text, ◌≡◌, refl, text_eq_sound, text_eq_refl, true}
use agent00x.Values.{
  Value, null, bool, int, str, list, tuple, dict, object, py_eq, is_name, text_of,
}

pub py_eq-str_left : (s : Text) (v : Value) → py_eq (str s) v ≡ true → v ≡ str s
unfolding py_eq
py_eq-str_left s (str t) h = ap_str (text_eq_sound s t h)
  where
    ap_str : s ≡ t → str t ≡ str s
    ap_str e = cc
py_eq-str_left s null h = cc
py_eq-str_left s (bool b) h = cc
py_eq-str_left s (int n) h = cc
py_eq-str_left s (list xs) h = cc
py_eq-str_left s (tuple xs) h = cc
py_eq-str_left s (dict d) h = cc
py_eq-str_left s (object n) h = cc

pub py_eq-str_right : (v : Value) (s : Text) → py_eq v (str s) ≡ true → v ≡ str s
unfolding py_eq
py_eq-str_right (str t) s h = let e = text_eq_sound t s h in cc
py_eq-str_right null s h = cc
py_eq-str_right (bool b) s h = cc
py_eq-str_right (int n) s h = cc
py_eq-str_right (list xs) s h = cc
py_eq-str_right (tuple xs) s h = cc
py_eq-str_right (dict d) s h = cc
py_eq-str_right (object n) s h = cc

pub py_eq-str_refl : (s : Text) → py_eq (str s) (str s) ≡ true
unfolding py_eq
py_eq-str_refl s = text_eq_refl s

pub is_name-str : (v : Value) → is_name v ≡ true → v ≡ str (text_of v)
unfolding is_name text_of
is_name-str (str s) h = refl
is_name-str null h = cc
is_name-str (bool b) h = cc
is_name-str (int n) h = cc
is_name-str (list xs) h = cc
is_name-str (tuple xs) h = cc
is_name-str (dict d) h = cc
is_name-str (object n) h = cc

-- Two names that `==` accepts are one string.
pub names-eq : (v w : Value) → is_name v ≡ true → is_name w ≡ true → py_eq v w ≡ true → v ≡ w
names-eq v w hv hw h =
    let ev = is_name-str v hv in
    let ew = is_name-str w hw in
    let h' : py_eq v (str (text_of w)) ≡ true = rw ew at h in py_eq-str_right v (text_of w) h' ∙' ew
  where
    infixr 30 ◌∙'◌
    ◌∙'◌ : {a b c : Value} → a ≡ b → c ≡ b → a ≡ c
    p ∙' q = cc
