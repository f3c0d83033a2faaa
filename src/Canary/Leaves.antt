-- ===== src/Canary/Leaves.antt =====
-- src/app_contracts/secret_scan.py: the objects of a surface, and the scan of one that holds no other.
use agent00x.Prelude.{
  ◌>>=◌, ◌>>◌, ℕ, ◌+◌, Text, text, contains_text, Bool, true, false, Option, none, some, List, Kind,
  Result, ok, err, raise_if, ltb, length,
}
use agent00x.Digests.{render_int}
use agent00x.Digests.Encoding.{utf8}
use agent00x.Values.{ℤ}

abbrev pub max_canary_surface_bytes : ℕ
max_canary_surface_bytes = 1000000

pub data Object : Type 0 where
  no_object : Object
  boolean : Bool → Object
  integer : ℤ → Object
  floating : Option Text → Object
  string : Text → Object
  byte_string : List ℕ → Object
  -- A list or a tuple.
  sequence : List ℕ → Object
  -- A dict, its keys with their values.
  mapping : List (ℕ × ℕ) → Object
  unsupported : Object

abbrev pub Heap : Type 0
Heap = ℕ → Object

abbrev pub refuse_if : Bool → Result (Unit {0})
refuse_if t = raise_if t Kind.value_error (text "surface cannot be scanned within bounds")

-- `canary_bytes in current` is the same search as for text.
unfoldable pub encoded : Option (List ℕ) → Result (List ℕ)
encoded none = err Kind.value_error (text "surrogates not allowed")
encoded (some bytes) = ok bytes

-- A leaf that is printed, or is encoded, to `size` bytes: the count after it, and whether it is
-- what is looked for.
unfoldable pub counted : ℕ → Bool → ℕ → Result (Bool × ℕ)
counted size found scanned = do
  refuse_if (ltb max_canary_surface_bytes (size + scanned))
  ok (found, scanned + size)

unfoldable pub scan_string : Text → Text → ℕ → Result (Bool × ℕ)
unfolding encoded counted utf8 contains_text
scan_string canary s scanned = do
  refuse_if (ltb max_canary_surface_bytes (length s + scanned))
  bytes ← encoded (utf8 s)
  counted (length bytes) (contains_text canary s) scanned

-- `json.dumps(current, allow_nan=False, separators=(",", ":"))`
unfoldable pub printed : Object → Option Text
unfolding render_int
printed no_object = some (text "null")
printed (boolean true) = some (text "true")
printed (boolean false) = some (text "false")
printed (integer n) = some (render_int n)
printed (floating t) = t
printed _ = none

unfoldable pub scan_printed : Text → Option Text → ℕ → Result (Bool × ℕ)
unfolding counted contains_text
scan_printed canary none scanned =
    err Kind.value_error (text "Out of range float values are not JSON compliant")
scan_printed canary (some s) scanned = counted (length s) (contains_text canary s) scanned
