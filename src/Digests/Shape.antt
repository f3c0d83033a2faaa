-- ===== src/Digests/Shape.antt =====
-- The shape of a digest that is written out: `sha256:` and 64 lower-case hexadecimal digits.
use agent00x.Prelude.{
  ◌==◌, ◌||◌, length, ◌&&◌, leb, text, Bool, Text, ℕ, starts_with, remove_prefix, all_codes,
}

-- `[0-9a-f]`
unfoldable pub lower_hex : ℕ → Bool
lower_hex c = (leb 48 c && leb c 57) || (leb 97 c && leb c 102)

-- `re.fullmatch(r"sha256:[0-9a-f]{64}", s)`
unfoldable pub is_digest : Text → Bool
unfolding lower_hex starts_with remove_prefix all_codes
is_digest s =
    starts_with (text "sha256:") s
    && (length s == 71 && all_codes lower_hex (remove_prefix (text "sha256:") s))
