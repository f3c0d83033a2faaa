-- ===== src/Host.antt =====
-- What the control core takes from libraries: SHA-256, Ed25519 and ISO 8601 times.
use agent00x.Prelude.{ℕ, Text, Bool, List, Option}
use agent00x.Clock.{DateTime}

-- What `urlparse` finds in a URL.
pub record UrlParts : Type 0 where
  pub scheme : Text
  pub netloc : Text
  pub username : Option Text
  pub password : Option Text
  pub fragment : Text

pub record Host : Type 0 where
  -- `hashlib.sha256(…).hexdigest()`
  pub sha256_hex : List ℕ → Text
  -- `datetime.fromisoformat`, `none` where it raises
  pub from_isoformat : Text → Option DateTime
  -- `isoformat()` of a moment in UTC, with `Z` for `+00:00`
  pub isoformat : ℕ → Text
  -- `Ed25519PublicKey.from_public_bytes(key).verify(signature, payload)` returns
  pub ed25519_verifies : List ℕ → List ℕ → List ℕ → Bool
  -- `urllib.parse.urlparse`, `none` where it raises ValueError
  pub urlparse : Text → Option UrlParts
