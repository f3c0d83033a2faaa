-- ===== src/Canary/Paths.antt =====
-- What a surface holds, at every depth: the paths through the heap, and the objects that show a canary.
use mathlib.Core.List.{Memᴰ}
use agent00x.Prelude.{
  ℕ, zero, suc, Text, contains_text, ◌+◌, ◌≤◌, ◌≡◌, Bool, true, false, Option, none, some, List, [],
}
use agent00x.Canary.{entries, max_canary_nesting_depth}
use agent00x.Canary.Leaves.{
  Object, string, byte_string, sequence, mapping, unsupported, Heap, printed,
}

unfoldable pub children : Object → List ℕ
unfolding entries
children (sequence items) = items
children (mapping items) = entries items
children _ = []

-- `Trail heap a n b`: from the object at `a` to the one at `b` by `n` steps into a container.
pub data Trail (heap : Heap) : ℕ → ℕ → ℕ → Type 0 where
  here : {a : ℕ} → Trail heap a zero a
  down : {a b c n : ℕ} → Memᴰ c (children (heap a)) → Trail heap c n b → Trail heap a (suc n) b

unfoldable pub shows_printed : Text → Option Text → Bool
unfolding contains_text
shows_printed canary none = false
shows_printed canary (some t) = contains_text canary t

-- Whether an object itself, without those that it holds, shows the canary.
unfoldable pub shows : Text → List ℕ → Object → Bool
unfolding contains_text shows_printed printed
shows canary canary_bytes (string t) = contains_text canary t
shows canary canary_bytes (byte_string b) = contains_text canary_bytes b
shows canary canary_bytes o = shows_printed canary (printed o)

-- An object that a scan can look into.
unfoldable pub supported : Object → Bool
supported unsupported = false
supported _ = true

-- What holds `depth` steps below the root: the canary shows nowhere, nothing is of a class that
-- cannot be looked into, and nothing lies too deep, so that no container holds itself.
abbrev pub IsClear : Heap → Text → List ℕ → ℕ → ℕ → Type 0
IsClear heap canary canary_bytes depth a =
    (n b : ℕ)
    → Trail heap a n b
    → (depth + n ≤ max_canary_nesting_depth)
      × (supported (heap b) ≡ true)
      × (shows canary canary_bytes (heap b) ≡ false)

-- The canary shows in an object that the root leads to, within the depth that is looked into.
abbrev pub Occurs : Heap → Text → List ℕ → ℕ → ℕ → Type 0
Occurs heap canary canary_bytes depth a =
    (n : ℕ) × (b : ℕ) × Trail heap a n b
    × (depth + n ≤ max_canary_nesting_depth)
    × (shows canary canary_bytes (heap b) ≡ true)
