-- ===== src/Canary/Verdicts.antt =====
-- What the scan's verdicts mean for everything that a surface leads to.
use mathlib.Core.List.{Memᴰ}
use mathlib.Core.Path.{subst}
use agent00x.Prelude.{
  ℕ, zero, suc, ◌≤◌, Text, Bool, true, false, Option, some, List, [], ◌∷◌, ◌++◌, Result, ok, err,
  ◌≡◌, refl, sym, arith, inl, inr, All, ◌↔◌, ◌⊎◌,
}
use agent00x.Canary.{
  Frame, Scan, Step, continues, returns, frames, pop, scan, start, contains_canary_bounded, enough,
}
use agent00x.Canary.Leaves.{Heap}
use agent00x.Canary.Paths.{children, Trail, here, down, IsClear, Occurs, supported, shows}
use agent00x.Canary.Rounds.{Round, finished, left, passed, opened, shown, pop-Round}
use mathlib.Core.List.Memᴰ

module _ (heap : Heap) (canary : Text) (canary_bytes : List ℕ) where
  -- Of a frame that is still to be entered.
  FrameIsClear : Frame → Type 0
  FrameIsClear f = f.exiting ≡ false → IsClear heap canary canary_bytes f.depth f.address

  FrameOccurs : Frame → Type 0
  FrameOccurs f = (f.exiting ≡ false) × Occurs heap canary canary_bytes f.depth f.address

  frames-IsClear :
      (held : List ℕ) (depth : ℕ) (fs : List Frame)
      → All FrameIsClear (frames held depth ++ fs)
      → ((c : ℕ) → Memᴰ c held → IsClear heap canary canary_bytes depth c) × All FrameIsClear fs
  unfolding frames FrameIsClear
  frames-IsClear [] depth fs clear = (λ c within. absurd (Memᴰ.not-nil within), clear)
  frames-IsClear (a ∷ held) depth fs clear =
      let (below, others) = frames-IsClear held depth fs clear.1 in
      (
        λ c within. elim (Memᴰ.cases_cons within) [
          | inl e ↦ subst (IsClear heap canary canary_bytes depth) (sym e) (clear.0 refl)
          | inr further ↦ below c further
        ],
        others,
      )

  -- A node is clear when what it holds is, one step deeper.
  node-IsClear :
      (a depth : ℕ)
      → depth ≤ 64
      → supported (heap a) ≡ true
      → shows canary canary_bytes (heap a) ≡ false
      → ((c : ℕ) → Memᴰ c (children (heap a)) → IsClear heap canary canary_bytes (suc depth) c)
      → IsClear heap canary canary_bytes depth a
  node-IsClear a depth shallow known hidden below _ _ here = (omega arith, known, hidden)
  node-IsClear a depth shallow known hidden below _ b (down {c} {n} within path) =
      let (deep, known', hidden') = below c within n b path in (omega arith, known', hidden')

  same_verdict : (c b : Bool) → some (ok c) ≡ some (ok b) → c ≡ b
  same_verdict c b h = cc

  -- Of every state that a scan passes on its way to the verdict `b`, by its rounds backwards.
  scan-induction :
      (P : Scan → Type 0) (b : Bool)
      → ((s : Scan) → Round heap canary canary_bytes s (returns b) → P s)
      → ((s s' : Scan) → Round heap canary canary_bytes s (continues s') → P s' → P s)
      → (fuel : ℕ) (s : Scan) → scan heap canary canary_bytes fuel s ≡ some (ok b)
      → P s
  unfolding scan
  scan-induction P b last earlier zero s h = cc
  scan-induction P b last earlier (suc fuel) s h =
      of_pop (λ s' e. scan-induction P b last earlier fuel s' e)
        (pop heap canary canary_bytes s.stack s) refl h
    where
      of_pop :
          ((s' : Scan) → scan heap canary canary_bytes fuel s' ≡ some (ok b) → P s')
          → (r : Result Step) → pop heap canary canary_bytes s.stack s ≡ r
          → (elim r as (λ _. Option (Result Bool)) [
            | err k m ↦ some (err k m)
            | ok (returns b) ↦ some (ok b)
            | ok (continues s') ↦ scan heap canary canary_bytes fuel s'
          ])
            ≡ some (ok b)
          → P s
      of_pop again (err k m) e h = cc
      of_pop again (ok (returns c)) e h = last s (
          subst (λ d. Round heap canary canary_bytes s (returns d)) (same_verdict c b h)
            (pop-Round heap canary canary_bytes s s.stack (returns c) refl e))
      of_pop again (ok (continues s')) e h =
          earlier s s' (pop-Round heap canary canary_bytes s s.stack (continues s') refl e)
            (again s' h)

  Round-IsClear :
      (s s' : Scan)
      → Round heap canary canary_bytes s (continues s')
      → All FrameIsClear s'.stack
      → All FrameIsClear s.stack
  unfolding FrameIsClear
  Round-IsClear s s' (left f top exiting _) clear =
      subst (All FrameIsClear) (sym top) ((λ entering. absurd (cc), clear))
  Round-IsClear s s' (passed f entered known childless hidden _) clear =
      subst (All FrameIsClear) (sym entered.top) (
        (
          λ _.
              node-IsClear f.address f.depth entered.shallow known hidden
                (λ c within. absurd (Memᴰ.not-nil (subst (Memᴰ c) childless within))),
          clear,
        ))
  Round-IsClear s s' (opened f fs entered known hidden after _) clear =
      let (below, others) =
        frames-IsClear (children (heap f.address)) (suc f.depth) _
          (subst (All FrameIsClear) after clear) in
      subst (All FrameIsClear) (sym entered.top)
        ((λ _. node-IsClear f.address f.depth entered.shallow known hidden below, others.1))

  scan-IsClear :
      (fuel : ℕ) (s : Scan)
      → scan heap canary canary_bytes fuel s ≡ some (ok false)
      → All FrameIsClear s.stack
  scan-IsClear fuel s h =
      scan-induction (λ t. All FrameIsClear t.stack) false last Round-IsClear fuel s h
    where
      last :
          (s : Scan) → Round heap canary canary_bytes s (returns false) → All FrameIsClear s.stack
      last s (finished empty) = subst (All FrameIsClear) (sym empty) tt

  -- A frame of the stack from which the canary is found.
  Leads : List Frame → Type 0
  Leads fs = (f : Frame) × Memᴰ f fs × FrameOccurs f

  frames-Leads :
      (held : List ℕ) (depth : ℕ) (fs : List Frame)
      → Leads (frames held depth ++ fs)
      → ((c : ℕ) × Memᴰ c held × Occurs heap canary canary_bytes depth c) ⊎ Leads fs
  unfolding frames Leads FrameOccurs
  frames-Leads [] depth fs leads = inr leads
  frames-Leads (a ∷ held) depth fs (f, within, occurs) = elim (Memᴰ.cases_cons within) [
    | inl e ↦ inl (
      a,
      Memᴰ.head refl,
      subst (λ (g : Frame). Occurs heap canary canary_bytes g.depth g.address) e occurs.1,
    )
    | inr further ↦ elim (frames-Leads held depth fs (f, further, occurs)) [
      | inl below ↦ let (c, there, found) = below in inl (c, Memᴰ.tail there, found)
      | inr others ↦ inr others
    ]
  ]

  Round-Leads :
      (s s' : Scan)
      → Round heap canary canary_bytes s (continues s')
      → Leads s'.stack
      → Leads s.stack
  unfolding Leads FrameOccurs
  Round-Leads s s' (left f top exiting _) (g, within, occurs) =
      subst Leads (sym top) (g, Memᴰ.tail within, occurs)
  Round-Leads s s' (passed f entered _ _ _ _) (g, within, occurs) =
      subst Leads (sym entered.top) (g, Memᴰ.tail within, occurs)
  Round-Leads s s' (opened f fs entered _ _ after _) leads =
      elim (frames-Leads (children (heap f.address)) (suc f.depth) _ (subst Leads after leads)) [
        | inl below ↦
            let (c, within, occurs) = below in
            let (n, b, path, deep, found) = occurs in
            subst Leads (sym entered.top) (
              f,
              Memᴰ.head refl,
              (entered.entering, (suc n, b, down within path, omega arith, found)),
            )
        | inr others ↦
            let (g, within, rest) = others in
            elim (Memᴰ.cases_cons within) [
              | inl e ↦ absurd (leaving g f e rest.0)
              | inr further ↦ subst Leads (sym entered.top) (g, Memᴰ.tail further, rest)
            ]
      ]
    where
      leaving :
          (g f : Frame)
          → g ≡ record { address = f.address; depth = f.depth; exiting = true }
          → g.exiting ≡ false
          → ⊥
      leaving g f e entering = cc

  scan-Leads :
      (fuel : ℕ) (s : Scan) → scan heap canary canary_bytes fuel s ≡ some (ok true) → Leads s.stack
  unfolding Leads FrameOccurs
  scan-Leads fuel s h = scan-induction (λ t. Leads t.stack) true last Round-Leads fuel s h
    where
      last : (s : Scan) → Round heap canary canary_bytes s (returns true) → Leads s.stack
      last s (shown f fs entered visible) = subst Leads (sym entered.top) (
        f,
        Memᴰ.head refl,
        (entered.entering, (0, f.address, here, omega (arith, entered.shallow), visible)),
      )

  -- A surface that is scanned without a finding is clear at every depth.
  pub contains_canary_bounded-IsClear :
      (root : ℕ)
      → contains_canary_bounded heap canary canary_bytes root ≡ some (ok false)
      → IsClear heap canary canary_bytes 0 root
  unfolding contains_canary_bounded start FrameIsClear
  contains_canary_bounded-IsClear root h = (scan-IsClear enough (start root) h).0 refl

  contains_canary_bounded-Occurs :
      (root : ℕ)
      → contains_canary_bounded heap canary canary_bytes root ≡ some (ok true)
      → Occurs heap canary canary_bytes 0 root
  unfolding contains_canary_bounded start Leads FrameOccurs
  contains_canary_bounded-Occurs root h =
      let (f, within, rest) = scan-Leads enough (start root) h in
      elim (Memᴰ.cases_cons within) [
        | inl e ↦ subst (λ (g : Frame). Occurs heap canary canary_bytes g.depth g.address) e rest.1
        | inr further ↦ absurd (Memᴰ.not-nil further)
      ]

  -- The verdict of a scan that does not refuse is right: the canary is found exactly where it shows
  -- in an object that the surface leads to, within 64 levels and through containers of any shape.
  pub contains_canary_bounded_iff :
      (root : ℕ) (b : Bool)
      → contains_canary_bounded heap canary canary_bytes root ≡ some (ok b)
      → (b ≡ true) ↔ Occurs heap canary canary_bytes 0 root
  contains_canary_bounded_iff root true h = (λ _. contains_canary_bounded-Occurs root h, λ _. refl)
  contains_canary_bounded_iff root false h =
      (λ e. absurd (cc), λ (n, b, path, deep, found). absurd (hidden n b path found))
    where
      hidden : (n b : ℕ) → Trail heap root n b → shows canary canary_bytes (heap b) ≡ true → ⊥
      hidden n b path found =
          let (_, _, unseen) = contains_canary_bounded-IsClear root h n b path in cc
