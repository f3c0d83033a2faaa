-- ===== src/Canary/Rounds.antt =====
-- What one round of the scan did, read from what it came to.
use mathlib.Core.Path.{subst}
use agent00x.Prelude.{
  ℕ, suc, ◌+◌, ◌≤◌, Text, text, contains_text, Bool, true, false, ◌||◌, not, Option, none, some,
  List, [], ◌∷◌, ◌++◌, Kind, Result, ok, err, ◌>>◌, if◌then◌else◌, ltb, length, ◌≡◌, refl, sym, ap,
  ◌∙◌, arith, bind_returns, raise_if_passes, ok_injective, Bool-cases, inl, inr,
}
use agent00x.Canary.{
  Frame, Scan, Step, continues, returns, entries, string_keys, frames, after_leaf, after_container,
  is_active, inspect, visit, leave, leave_container, pop, max_canary_surface_nodes,
  max_canary_nesting_depth,
}
use agent00x.Canary.Leaves.{
  Object, no_object, boolean, integer, floating, string, byte_string, sequence, mapping,
  unsupported, Heap, refuse_if, max_canary_surface_bytes, encoded, counted, scan_string, printed,
  scan_printed,
}
use agent00x.Canary.Paths.{supported, children, shows, shows_printed}
use agent00x.Digests.Encoding.{utf8}

passed_test {ℓ} :
    {B : Type ℓ} (t : Bool) (rest : Result B) {b : B}
    → (refuse_if t >> rest) ≡ ok b
    → (t ≡ false) × (rest ≡ ok b)
passed_test t rest h =
    raise_if_passes t Kind.value_error (text "surface cannot be scanned within bounds") rest h

module _ (heap : Heap) (canary : Text) (canary_bytes : List ℕ) where
  -- A node that is entered within the bounds.
  pub record Entered (s : Scan) (f : Frame) (fs : List Frame) : Type 0 where
    pub top : s.stack ≡ f ∷ fs
    pub entering : f.exiting ≡ false
    pub shallow : f.depth ≤ max_canary_nesting_depth
    pub few : suc s.visited_nodes ≤ max_canary_surface_nodes

  pub data Round (s : Scan) : Step → Type 0 where
    finished : s.stack ≡ [] → Round s (returns false)
    left :
        {s' : Scan} (f : Frame)
        → s.stack ≡ f ∷ s'.stack
        → f.exiting ≡ true
        → s'.visited_nodes ≡ s.visited_nodes
        → Round s (continues s')
    passed :
        {s' : Scan} (f : Frame)
        → Entered s f s'.stack
        → supported (heap f.address) ≡ true
        → children (heap f.address) ≡ []
        → shows canary canary_bytes (heap f.address) ≡ false
        → s'.visited_nodes ≡ suc s.visited_nodes
        → Round s (continues s')
    opened :
        {s' : Scan} (f : Frame) (fs : List Frame)
        → Entered s f fs
        → supported (heap f.address) ≡ true
        → shows canary canary_bytes (heap f.address) ≡ false
        → s'.stack
          ≡ frames (children (heap f.address)) (suc f.depth)
            ++ record { address = f.address; depth = f.depth; exiting = true } ∷ fs
        → s'.visited_nodes ≡ suc s.visited_nodes
        → Round s (continues s')
    shown :
        (f : Frame) (fs : List Frame)
        → Entered s f fs
        → shows canary canary_bytes (heap f.address) ≡ true
        → Round s (returns true)

  counted-found :
      (size scanned scanned' : ℕ) (b found : Bool)
      → counted size b scanned ≡ ok (found, scanned')
      → found ≡ b
  unfolding counted
  counted-found size scanned scanned' b found h =
      let (_, h1) = passed_test (ltb max_canary_surface_bytes (size + scanned)) _ h in
      ap (λ (p : Bool × ℕ). p.0) (sym (ok_injective _ _ h1))

  scan_string-found :
      (t : Text) (scanned scanned' : ℕ) (found : Bool)
      → scan_string canary t scanned ≡ ok (found, scanned')
      → found ≡ contains_text canary t
  unfolding scan_string
  scan_string-found t scanned scanned' found h =
      let (_, h1) = passed_test (ltb max_canary_surface_bytes (length t + scanned)) _ h in
      let (bytes, _, h2) = bind_returns (encoded (utf8 t)) _ h1 in
      counted-found (length bytes) scanned scanned' (contains_text canary t) found h2

  scan_printed-found :
      (o : Option Text) (scanned scanned' : ℕ) (found : Bool)
      → scan_printed canary o scanned ≡ ok (found, scanned')
      → found ≡ shows_printed canary o
  unfolding scan_printed shows_printed
  scan_printed-found none scanned scanned' found h = cc
  scan_printed-found (some t) scanned scanned' found h =
      counted-found (length t) scanned scanned' (contains_text canary t) found h

  -- A round on a leaf.
  data Leaf (s : Scan) (b : Bool) : Step → Type 0 where
    goes_on :
        {s' : Scan}
        → b ≡ false
        → s'.stack ≡ s.stack
        → s'.visited_nodes ≡ s.visited_nodes
        → Leaf s b (continues s')
    stops : b ≡ true → Leaf s b (returns true)

  after_leaf-Leaf :
      (s : Scan) (leaf : Result (Bool × ℕ)) (b : Bool) (step : Step)
      → ((found : Bool) (scanned : ℕ) → leaf ≡ ok (found, scanned) → found ≡ b)
      → after_leaf s leaf ≡ ok step
      → Leaf s b step
  unfolding after_leaf
  after_leaf-Leaf s (err k m) b step same h = cc
  after_leaf-Leaf s (ok (false, scanned)) b step same h =
      subst (Leaf s b) (ok_injective _ _ h) (goes_on (sym (same _ _ refl)) refl refl)
  after_leaf-Leaf s (ok (true, scanned)) b step same h =
      subst (Leaf s b) (ok_injective _ _ h) (stops (sym (same _ _ refl)))

  -- A round on a container.
  data Opening (s : Scan) (a depth : ℕ) (held : List ℕ) : Step → Type 0 where
    opening :
        {s' : Scan}
        → s'.stack
          ≡ frames held (suc depth)
            ++ record { address = a; depth = depth; exiting = true } ∷ s.stack
        → s'.visited_nodes ≡ s.visited_nodes
        → Opening s a depth held (continues s')

  after_container-Opening :
      (s : Scan) (a depth : ℕ) (held : List ℕ) (keys : Bool) (step : Step)
      → after_container s a depth held keys ≡ ok step
      → Opening s a depth held step
  unfolding after_container
  after_container-Opening s a depth held keys step h =
      let (_, h1) =
        passed_test (ltb max_canary_surface_nodes (length held + s.visited_nodes)) _ h in
      let (_, h2) = passed_test (is_active a s.active_containers) _ h1 in
      let (_, h3) = passed_test (not keys) _ h2 in
      subst (Opening s a depth held) (ok_injective _ _ h3) (opening refl refl)

  -- An object that is entered.
  data Inspected (s : Scan) (a depth : ℕ) (o : Object) : Step → Type 0 where
    of_leaf :
        {step : Step}
        → supported o ≡ true
        → children o ≡ []
        → Leaf s (shows canary canary_bytes o) step
        → Inspected s a depth o step
    of_container :
        {step : Step}
        → supported o ≡ true
        → shows canary canary_bytes o ≡ false
        → Opening s a depth (children o) step
        → Inspected s a depth o step

  printed_leaf :
      (s : Scan) (a depth : ℕ) (o : Object) (step : Step)
      → supported o ≡ true
      → children o ≡ []
      → shows_printed canary (printed o) ≡ shows canary canary_bytes o
      → after_leaf s (scan_printed canary (printed o) s.scanned_bytes) ≡ ok step
      → Inspected s a depth o step
  printed_leaf s a depth o step known none_held same h = of_leaf known none_held (
      after_leaf-Leaf s (scan_printed canary (printed o) s.scanned_bytes) _ step
        (λ found scanned e. scan_printed-found (printed o) s.scanned_bytes scanned found e ∙ same)
        h)

  inspect-Inspected :
      (s : Scan) (a depth : ℕ) (o : Object) (step : Step)
      → inspect heap canary canary_bytes s a depth o ≡ ok step
      → Inspected s a depth o step
  unfolding inspect shows supported children printed shows_printed
  inspect-Inspected s a depth (string t) step h = of_leaf refl refl (
      after_leaf-Leaf s (scan_string canary t s.scanned_bytes) _ step
        (λ found scanned e. scan_string-found t s.scanned_bytes scanned found e) h)
  inspect-Inspected s a depth (byte_string b) step h = of_leaf refl refl (
      after_leaf-Leaf s (counted (length b) (contains_text canary_bytes b) s.scanned_bytes) _ step
        (λ found scanned e. counted-found (length b) s.scanned_bytes scanned _ found e) h)
  inspect-Inspected s a depth (sequence items) step h =
      of_container refl refl (after_container-Opening s a depth items true step h)
  inspect-Inspected s a depth (mapping items) step h =
      of_container refl refl
        (after_container-Opening s a depth (entries items) (string_keys heap items) step h)
  inspect-Inspected s a depth unsupported step h = cc
  inspect-Inspected s a depth no_object step h =
      printed_leaf s a depth no_object step refl refl refl h
  inspect-Inspected s a depth (boolean b) step h =
      printed_leaf s a depth (boolean b) step refl refl refl h
  inspect-Inspected s a depth (integer n) step h =
      printed_leaf s a depth (integer n) step refl refl refl h
  inspect-Inspected s a depth (floating t) step h =
      printed_leaf s a depth (floating t) step refl refl refl h

  -- A frame that is entered.
  visit-Round :
      (s : Scan) (f : Frame) (fs : List Frame) (step : Step)
      → s.stack ≡ f ∷ fs
      → f.exiting ≡ false
      → visit heap canary canary_bytes f.address f.depth (record s { stack = fs }) ≡ ok step
      → Round s step
  unfolding visit
  visit-Round s f fs step top entering h =
      let (within, h1) =
        passed_test
          (ltb max_canary_surface_nodes (suc s.visited_nodes)
            || ltb max_canary_nesting_depth f.depth)
          _ h in
      let entered : Entered s f fs = record {
        top = top;
        entering = entering;
        shallow = ground (arith, within);
        few = ground (arith, within);
      } in
      of_inspected step entered (
        inspect-Inspected (record s { stack = fs; visited_nodes = suc s.visited_nodes }) f.address
          f.depth (heap f.address) step h1)
    where
      of_inspected :
          (step : Step)
          → Entered s f fs
          → Inspected
              (record s { stack = fs; visited_nodes = suc s.visited_nodes })
              f.address
              f.depth
              (heap f.address)
              step
          → Round s step
      of_inspected step entered (of_leaf known childless (goes_on hidden rest count)) =
          passed f (subst (Entered s f) (sym rest) entered) known childless hidden count
      of_inspected step entered (of_leaf known childless (stops visible)) =
          shown f fs entered visible
      of_inspected step entered (of_container known hidden (opening rest count)) =
          opened f fs entered known hidden rest count

  leave-Round :
      (s : Scan) (f : Frame) (fs : List Frame) (step : Step)
      → s.stack ≡ f ∷ fs
      → f.exiting ≡ true
      → leave heap canary canary_bytes f.address (record s { stack = fs }) ≡ ok step
      → Round s step
  unfolding leave
  leave-Round s f fs step top exiting h =
      let (active, _, h1) = bind_returns (leave_container f.address s.active_containers) _ h in
      subst (Round s) (ok_injective _ _ h1) (left f top exiting refl)

  pub pop-Round :
      (s : Scan) (fs : List Frame) (step : Step)
      → s.stack ≡ fs
      → pop heap canary canary_bytes fs s ≡ ok step
      → Round s step
  unfolding pop
  pop-Round s [] step empty h = subst (Round s) (ok_injective _ _ h) (finished empty)
  pop-Round s (f ∷ fs) step top h =
      let left_next = leave heap canary canary_bytes f.address (record s { stack = fs }) in
      let entered_next =
        visit heap canary canary_bytes f.address f.depth (record s { stack = fs }) in
      let branch : Bool → Type 0 = λ b. (if b then left_next else entered_next) ≡ ok step in
      elim (Bool-cases f.exiting) [
        | inl exiting ↦ leave-Round s f fs step top exiting (subst branch exiting h)
        | inr entering ↦ visit-Round s f fs step top entering (subst branch entering h)
      ]
