-- ===== src/Clock.antt =====
-- Python's `datetime`.
use agent00x.Prelude.{ℕ, Bool}

-- An aware or a naive `datetime`; `instant` counts microseconds, in UTC where it is aware.
pub record DateTime : Type 0 where
  pub instant : ℕ
  pub aware : Bool
