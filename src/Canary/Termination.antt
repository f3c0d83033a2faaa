-- ===== src/Canary/Termination.antt =====
-- The scan ends within its fuel, whatever the heap holds.
use agent00x.Prelude.{
  ℕ, zero, suc, ◌+◌, ◌-◌, ◌*◌, ◌<◌, Text, Bool, true, false, some, List, [], ◌∷◌, ◌++◌, Result, ok,
  err, ◌≡◌, refl, ap, ◌∙◌, arith, if◌then◌else◌, Result-cases, inl, inr,
}
use agent00x.Canary.{
  Frame, Scan, Step, continues, returns, frames, pop, scan, start, contains_canary_bounded,
  max_canary_surface_nodes,
}
use agent00x.Canary.Leaves.{Heap}
use agent00x.Canary.Paths.{children}
use agent00x.Canary.Rounds.{Round, left, passed, opened, pop-Round}

-- How many frames of a stack are left.
exits : List Frame → ℕ
exits [] = 0
exits (f ∷ fs) = if f.exiting then suc (exits fs) else exits fs

exits-frames :
    (held : List ℕ) (depth : ℕ) (fs : List Frame) → exits (frames held depth ++ fs) ≡ exits fs
unfolding exits frames
exits-frames [] depth fs = refl
exits-frames (a ∷ held) depth fs = exits-frames held depth fs

exits-top :
    (f : Frame) (fs : List Frame) (b : Bool)
    → f.exiting ≡ b
    → exits (f ∷ fs) ≡ (if b then suc (exits fs) else exits fs)
unfolding exits
exits-top f fs b e = ap (λ (t : Bool). if t then suc (exits fs) else exits fs) e

-- What every round lessens: two for each node that may still be entered, one for each frame to leave.
rounds : Scan → ℕ
rounds s = (max_canary_surface_nodes - s.visited_nodes) * 2 + exits s.stack

module _ (heap : Heap) (canary : Text) (canary_bytes : List ℕ) where
  Round-rounds :
      (s s' : Scan) → Round heap canary canary_bytes s (continues s') → rounds s' < rounds s
  unfolding rounds
  Round-rounds s s' (left f top exiting same) =
      let before = ap exits top in let one = exits-top f s'.stack true exiting in omega arith
  Round-rounds s s' (passed f entered known childless hidden count) =
      let before = ap exits entered.top in
      let none = exits-top f s'.stack false entered.entering in let few = entered.few in omega arith
  Round-rounds s s' (opened f fs entered known hidden after count) =
      let before = ap exits entered.top in
      let none = exits-top f fs false entered.entering in
      let few = entered.few in let now = after_opened f fs (ap exits after) in omega arith
    where
      after_opened :
          (f : Frame) (fs : List Frame)
          → exits s'.stack
            ≡ exits (
                frames (children (heap f.address)) (suc f.depth)
                ++ record { address = f.address; depth = f.depth; exiting = true } ∷ fs)
          → exits s'.stack ≡ suc (exits fs)
      after_opened f fs e =
          e
          ∙ (exits-frames (children (heap f.address)) (suc f.depth)
                (record { address = f.address; depth = f.depth; exiting = true } ∷ fs)
              ∙ exits-top _ fs true refl)

  scan-returns :
      (fuel : ℕ) (s : Scan)
      → rounds s < fuel
      → (r : Result Bool) × (scan heap canary canary_bytes fuel s ≡ some r)
  unfolding scan
  scan-returns zero s h = absurd (omega arith)
  scan-returns (suc fuel) s h = elim (Result-cases (pop heap canary canary_bytes s.stack s)) [
    | inr raised ↦ let (k, m, e) = raised in (err k m, rw (e, scan) refl)
    | inl stepped ↦
        let (step, e) = stepped in
        after (λ s' fewer. scan-returns fuel s' fewer) step e
          (pop-Round heap canary canary_bytes s s.stack step refl e)
  ]
    where
      after :
          ((s' : Scan)
            → rounds s' < fuel
            → (r : Result Bool) × (scan heap canary canary_bytes fuel s' ≡ some r))
          → (step : Step) → pop heap canary canary_bytes s.stack s ≡ ok step
          → Round heap canary canary_bytes s step
          → (r : Result Bool) × (scan heap canary canary_bytes (suc fuel) s ≡ some r)
      after again (returns b) e round = (ok b, rw (e, scan) refl)
      after again (continues s') e round =
          let fewer = Round-rounds s s' round in
          let (r, rest) = again s' (omega arith) in (r, rw (e, scan) rest)

  -- Whatever the heap holds, cyclic data included, the scan of a surface comes to a result: it
  -- finds the canary, or does not, or refuses; it never runs out of rounds.
  pub contains_canary_bounded-returns :
      (root : ℕ)
      → (r : Result Bool) × (contains_canary_bounded heap canary canary_bytes root ≡ some r)
  unfolding contains_canary_bounded rounds exits
  contains_canary_bounded-returns root = scan-returns 200003 (start root) fits
    where
      fits : rounds (start root) < 200003
      fits = omega arith
