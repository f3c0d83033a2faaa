-- ===== src/Values/Dicts.antt =====
-- Lookups in dicts.
use agent00x.Prelude.{Kind, Text, ◌≡◌, some, arith, ok}
use agent00x.Values.{
  as_dict, dict, null, bool, int, str, list, tuple, object, Value, Fields, lookup, item, get,
}

pub item-ok : (d : Fields) (k : Text) (v : Value) → item d k ≡ ok v → lookup k d ≡ some v
unfolding item
item-ok d k v h = ground arith

pub item-get : (d : Fields) (k : Text) (v : Value) → item d k ≡ ok v → get d k ≡ v
unfolding item get
item-get d k v h = ground arith

pub as_dict-ok : (v : Value) (k : Kind) (m : Text) (d : Fields) → as_dict v k m ≡ ok d → v ≡ dict d
unfolding as_dict
as_dict-ok (dict e) k m d h = cc
as_dict-ok null k m d h = cc
as_dict-ok (bool b) k m d h = cc
as_dict-ok (int n) k m d h = cc
as_dict-ok (str s) k m d h = cc
as_dict-ok (list xs) k m d h = cc
as_dict-ok (tuple xs) k m d h = cc
as_dict-ok (object n) k m d h = cc
