-- ===== src/Canary.antt =====
-- src/app_contracts/secret_scan.py: the scan of surfaces for a canary credential. Python's objects
-- stand in a heap, at the numbers that `id` gives, so that data may be shared and may be cyclic. A
-- float is what `json.dumps` prints for it, `none` where that raises.
pub mod Leaves
pub mod Paths
pub mod Rounds
pub mod Termination
pub mod Verdicts
pub mod Absence
use agent00x.Prelude.{
  ◌>>=◌, ◌>>◌, ℕ, zero, suc, ◌+◌, Text, text, contains_text, Bool, true, false, ◌||◌, not, Option,
  none, some, List, [], ◌∷◌, ◌++◌, Kind, Result, ok, err, raise_if, if◌then◌else◌, ltb, ◌==◌,
  length, is_empty_text,
}
use agent00x.Canary.Leaves.{
  Heap, Object, byte_string, counted, mapping, max_canary_surface_bytes, printed, refuse_if,
  scan_printed, scan_string, sequence, string, unsupported,
}
use agent00x.Digests.Encoding.{utf8}

abbrev pub max_canary_surfaces : ℕ
max_canary_surfaces = 64

abbrev pub max_canary_surface_nodes : ℕ
max_canary_surface_nodes = 100000

abbrev pub max_canary_nesting_depth : ℕ
max_canary_nesting_depth = 64

-- `(current, depth, exiting)`
pub record Frame : Type 0 where
  pub address : ℕ
  pub depth : ℕ
  pub exiting : Bool

pub record Scan : Type 0 where
  pub stack : List Frame
  pub active_containers : List ℕ
  pub visited_nodes : ℕ
  pub scanned_bytes : ℕ

-- What one round of the loop comes to, unless it raises.
pub data Step : Type 0 where
  continues : Scan → Step
  returns : Bool → Step

-- `id(current) in active_containers`
unfoldable pub is_active : ℕ → List ℕ → Bool
is_active a [] = false
is_active a (b ∷ bs) = a == b || is_active a bs

-- `active_containers.remove(id(current))`
unfoldable pub removed : ℕ → List ℕ → List ℕ
removed a [] = []
removed a (b ∷ bs) = let rest = removed a bs in if a == b then rest else b ∷ rest

unfoldable pub leave_container : ℕ → List ℕ → Result (List ℕ)
unfolding is_active removed
leave_container a active =
    if is_active a active then ok (removed a active) else err Kind.key_error (text "id")

-- The children of a container in the order in which they are visited.
unfoldable pub entries : List (ℕ × ℕ) → List ℕ
entries [] = []
entries ((k, v) ∷ es) = k ∷ v ∷ entries es

unfoldable pub is_string : Object → Bool
is_string (string _) = true
is_string _ = false

unfoldable pub string_keys : Heap → List (ℕ × ℕ) → Bool
unfolding is_string
string_keys heap [] = true
string_keys heap ((k, v) ∷ es) = if is_string (heap k) then string_keys heap es else false

unfoldable pub frames : List ℕ → ℕ → List Frame
frames [] depth = []
frames (a ∷ rest) depth = record { address = a; depth = depth; exiting = false } ∷ frames rest depth

-- What a leaf leaves.
unfoldable pub after_leaf : Scan → Result (Bool × ℕ) → Result Step
after_leaf s leaf = do
  (found, scanned) ← leaf
  if found then ok (returns true) else ok (continues (record s { scanned_bytes = scanned }))

-- What a container leaves, which holds `count` objects.
unfoldable pub after_container : Scan → ℕ → ℕ → List ℕ → Bool → Result Step
unfolding is_active frames
after_container s a depth children keys = do
  refuse_if (ltb max_canary_surface_nodes (length children + s.visited_nodes))
  refuse_if (is_active a s.active_containers)
  refuse_if (not keys)
  ok (
      continues (record s {
        active_containers = a ∷ s.active_containers;
        stack =
            frames children (suc depth)
            ++ record { address = a; depth = depth; exiting = true } ∷ s.stack;
      }))

module _ (heap : Heap) (canary : Text) (canary_bytes : List ℕ) where
  -- The branches on the class of an object.
  unfoldable pub inspect : Scan → ℕ → ℕ → Object → Result Step
  unfolding after_leaf scan_string scan_printed counted printed after_container entries string_keys
      contains_text
  inspect s a depth (string t) = after_leaf s (scan_string canary t s.scanned_bytes)
  inspect s a depth (byte_string b) =
      after_leaf s (counted (length b) (contains_text canary_bytes b) s.scanned_bytes)
  inspect s a depth (sequence items) = after_container s a depth items true
  inspect s a depth (mapping items) =
      after_container s a depth (entries items) (string_keys heap items)
  inspect s a depth unsupported = do refuse_if true; ok (returns false)
  inspect s a depth o = after_leaf s (scan_printed canary (printed o) s.scanned_bytes)

  -- A frame that is entered, with the rest of the stack in `s`.
  unfoldable pub visit : ℕ → ℕ → Scan → Result Step
  unfolding inspect
  visit a depth s = do
    refuse_if
        (ltb max_canary_surface_nodes (suc s.visited_nodes) || ltb max_canary_nesting_depth depth)
    inspect (record s { visited_nodes = suc s.visited_nodes }) a depth (heap a)

  -- A frame that is left.
  unfoldable pub leave : ℕ → Scan → Result Step
  unfolding leave_container
  leave a s = do
    active ← leave_container a s.active_containers
    ok (continues (record s { active_containers = active }))

  unfoldable pub pop : List Frame → Scan → Result Step
  unfolding visit leave
  pop [] s = ok (returns false)
  pop (f ∷ fs) s =
      if f.exiting
      then leave f.address (record s { stack = fs })
      else visit f.address f.depth (record s { stack = fs })

  -- `while stack: …`; `none` where the fuel is used up
  unfoldable pub scan : ℕ → Scan → Option (Result Bool)
  unfolding pop
  scan zero s = none
  scan (suc fuel) s = elim (pop s.stack s) [
    | err k m ↦ some (err k m)
    | ok (returns b) ↦ some (ok b)
    | ok (continues s') ↦ scan fuel s'
  ]

unfoldable pub start : ℕ → Scan
start root = record {
  stack = record { address = root; depth = 0; exiting = false } ∷ [];
  active_containers = [];
  visited_nodes = 0;
  scanned_bytes = 0;
}

-- Every node is entered once and left at most once.
abbrev pub enough : ℕ
enough = 200003

-- `_contains_canary_bounded`
unfoldable pub contains_canary_bounded : Heap → Text → List ℕ → ℕ → Option (Result Bool)
unfolding scan start
contains_canary_bounded heap canary canary_bytes root =
    scan heap canary canary_bytes enough (start root)

-- `except Exception: found.append(name)`, and `if contains_canary: found.append(name)`
unfoldable pub is_finding : Option (Result Bool) → Bool
is_finding (some (ok b)) = b
is_finding _ = true

unfoldable pub findings : Heap → Text → List ℕ → List (Text × ℕ) → List Text
unfolding is_finding contains_canary_bounded
findings heap canary canary_bytes [] = []
findings heap canary canary_bytes ((name, root) ∷ surfaces) =
    let rest = findings heap canary canary_bytes surfaces in
    if is_finding (contains_canary_bounded heap canary canary_bytes root) then name ∷ rest else rest

unfoldable pub any_unnamed : List (Text × ℕ) → Bool
any_unnamed [] = false
any_unnamed ((name, root) ∷ surfaces) = is_empty_text name || any_unnamed surfaces

unfoldable pub canary_encoded : Option (List ℕ) → Result (List ℕ)
canary_encoded none = err Kind.value_error (text "canary must not be empty")
canary_encoded (some bytes) = do
  raise_if (ltb max_canary_surface_bytes (length bytes)) Kind.value_error
      (text "canary must not be empty")
  ok bytes

-- `find_canary_surfaces`, on a `str` and a dict that names its surfaces by `str`
unfoldable pub find_canary_surfaces : Heap → Text → List (Text × ℕ) → Result (List Text)
unfolding canary_encoded any_unnamed findings utf8
find_canary_surfaces heap canary surfaces = do
  raise_if (is_empty_text canary) Kind.value_error (text "canary must not be empty")
  canary_bytes ← canary_encoded (utf8 canary)
  raise_if (ltb max_canary_surfaces (length surfaces)) Kind.value_error
      (text "surface count exceeds limit")
  raise_if (any_unnamed surfaces) Kind.value_error (text "surface name must be a non-empty string")
  ok (findings heap canary canary_bytes surfaces)

-- `if leaked`
unfoldable pub any_leaked : List Text → Bool
any_leaked [] = false
any_leaked (name ∷ names) = true

-- `assert_canary_absent`; a `CredentialLeakDetected` is a `RuntimeError`
unfoldable pub assert_canary_absent : Heap → Text → List (Text × ℕ) → Result (Unit {0})
unfolding find_canary_surfaces any_leaked
assert_canary_absent heap canary surfaces = do
  leaked ← find_canary_surfaces heap canary surfaces
  raise_if (any_leaked leaked) Kind.runtime_error (text "credential canary found")
