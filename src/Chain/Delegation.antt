-- ===== src/Chain/Delegation.antt =====
-- src/app_contracts/chain.py: `_validate_delegation`, which lets a delegation only take away.
use agent00x.Prelude.{Text, text, Bool, true, false, ◌&&◌, ◌||◌, not, ◌++◌, Result, ◌>>◌}
use agent00x.Chain.Members.{chain_error, must_equal}
use agent00x.Values.{
  tuple, Value, int, list, pos, Fields, get, py_eq, is_name, Items, nil, cons, ℤ, ge_ℤ,
}

-- `isinstance(member, str) and member` of every member
unfoldable pub all_names : Items → Bool
all_names nil = true
all_names (cons v vs) = is_name v && all_names vs

-- The members of a list or a tuple.
unfoldable pub members_of : Value → Items
members_of (list xs) = xs
members_of (tuple xs) = xs
members_of _ = nil

-- `isinstance(members, (list, tuple))`
unfoldable pub is_sequence : Value → Bool
is_sequence (list _) = true
is_sequence (tuple _) = true
is_sequence _ = false

-- `isinstance(value, int) and not isinstance(value, bool)`
unfoldable pub is_int : Value → Bool
is_int (int _) = true
is_int _ = false

unfoldable pub int_of : Value → ℤ
int_of (int n) = n
int_of _ = pos 0

-- `v in members`
unfoldable pub in_items : Value → Items → Bool
in_items v nil = false
in_items v (cons w ws) = py_eq v w || in_items v ws

-- `set(members).issubset(others)`
unfoldable pub is_subset : Items → Items → Bool
unfolding in_items
is_subset nil ys = true
is_subset (cons x xs) ys = in_items x ys && is_subset xs ys

unfoldable pub members_named : Fields → Text → Result (Unit {0})
unfolding chain_error is_sequence members_of all_names
members_named holder k =
    chain_error (not (is_sequence (get holder k) && all_names (members_of (get holder k))))
      (text "delegation " ++ (k ++ text " is malformed"))

unfoldable pub depth_is_int : Fields → Text → Result (Unit {0})
unfolding chain_error is_int
depth_is_int holder k =
    chain_error (not (is_int (get holder k))) (text "delegation " ++ (k ++ text " is malformed"))

-- `_validate_delegation`
unfoldable pub validate_delegation : Fields → Fields → Result (Unit {0})
unfolding members_named depth_is_int is_subset int_of
validate_delegation parent child = do
  members_named child (text "actions")
  members_named child (text "resources")
  members_named parent (text "delegable_actions")
  members_named parent (text "resources")
  depth_is_int child (text "remaining_delegation_depth")
  depth_is_int parent (text "max_delegation_depth")
  must_equal (get child (text "issuer")) (get parent (text "subject"))
      (text "delegation issuer mismatch")
  must_equal (get child (text "process_id")) (get parent (text "process_id"))
      (text "delegation process mismatch")
  chain_error
      (not (
        is_subset (members_of (get child (text "actions")))
          (members_of (get parent (text "delegable_actions")))))
      (text "delegation expands actions")
  chain_error
      (not (
        is_subset (members_of (get child (text "resources")))
          (members_of (get parent (text "resources")))))
      (text "delegation expands resources")
  chain_error
      (ge_ℤ (int_of (get child (text "remaining_delegation_depth")))
        (int_of (get parent (text "max_delegation_depth"))))
      (text "delegation depth is not reduced")
