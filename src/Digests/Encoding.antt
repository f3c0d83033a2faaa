-- ===== src/Digests/Encoding.antt =====
-- `str.encode("utf-8")`, which raises at a surrogate.
use agent00x.Prelude.{
  ℕ, ◌+◌, ◌/◌, ◌%◌, Text, Bool, ◌&&◌, Option, none, some, List, [], ◌∷◌, ◌++◌, if◌then◌else◌, ltb,
  leb,
}

unfoldable pub surrogate : ℕ → Bool
surrogate c = leb 0xd800 c && ltb c 0xe000

unfoldable pub utf8_code : ℕ → List ℕ
utf8_code c =
    if ltb c 0x80
    then c ∷ []
    else if ltb c 0x800
    then (0xc0 + c / 64) ∷ (0x80 + c % 64) ∷ []
    else if ltb c 0x10000
    then (0xe0 + c / 4096) ∷ (0x80 + c / 64 % 64) ∷ (0x80 + c % 64) ∷ []
    else (0xf0 + c / 262144) ∷ (0x80 + c / 4096 % 64) ∷ (0x80 + c / 64 % 64) ∷ (0x80 + c % 64) ∷ []

prepend_bytes : Bool → List ℕ → Option (List ℕ) → Option (List ℕ)
prepend_bytes refused bytes none = none
prepend_bytes refused bytes (some rest) = if refused then none else some (bytes ++ rest)

unfoldable pub utf8 : Text → Option (List ℕ)
unfolding prepend_bytes surrogate utf8_code
utf8 [] = some []
utf8 (c ∷ s) = prepend_bytes (surrogate c) (utf8_code c) (utf8 s)
