-- ===== src/Publication/Percent.antt =====
-- `urllib.parse.quote(…, safe="")` and `unquote`.
use agent00x.Prelude.{
  refl, ◌≡◌, ℕ, zero, suc, ◌+◌, ◌-◌, ◌*◌, ◌/◌, ◌%◌, Text, text, Bool, ◌&&◌, ◌||◌, Option, none,
  some, List, [], ◌∷◌, ◌++◌, Kind, Result, ok, err, if◌then◌else◌, ltb, leb, ◌==◌,
}
use agent00x.Digests.Encoding.{utf8, surrogate}

-- Letters, digits and `_.-~` stand for themselves.
unfoldable pub unreserved : ℕ → Bool
unreserved b =
    (leb 48 b && leb b 57)
    || ((leb 65 b && leb b 90)
        || ((leb 97 b && leb b 122) || (b == 95 || (b == 46 || (b == 45 || b == 126)))))

unfoldable pub upper_hex : ℕ → ℕ
upper_hex n = if ltb n 10 then 48 + n else 55 + n

unfoldable pub quote_byte : ℕ → Text
unfolding unreserved upper_hex
quote_byte b = if unreserved b then b ∷ [] else 37 ∷ upper_hex (b / 16) ∷ upper_hex (b % 16) ∷ []

unfoldable pub quote_bytes : List ℕ → Text
unfolding quote_byte
quote_bytes [] = []
quote_bytes (b ∷ bs) = quote_byte b ++ quote_bytes bs

unfoldable pub quoted_or_raise : Option (List ℕ) → Result Text
unfolding quote_bytes
quoted_or_raise none = err Kind.value_error (text "surrogates not allowed")
quoted_or_raise (some bytes) = ok (quote_bytes bytes)

-- `quote(s, safe="")`
unfoldable pub quote : Text → Result Text
unfolding quoted_or_raise utf8
quote s = quoted_or_raise (utf8 s)

-- The value of a hexadecimal digit.
unfoldable pub hex_value : ℕ → Option ℕ
hex_value c =
    if leb 48 c && leb c 57
    then some (c - 48)
    else if leb 65 c && leb c 70
    then some (c - 55)
    else if leb 97 c && leb c 102
    then some (c - 87)
    else none

-- How much of an escape has been read: nothing, `%`, or `%` and a digit, spelled `code`.
pub data Escape : Type 0 where
  plain percent : Escape
  digit : ℕ → ℕ → Escape

after_plain : ℕ → List ℕ × Escape
after_plain c = if c == 37 then ([], percent) else (c ∷ [], plain)

-- The bytes that one more code point settles, and what it leaves open.
escape_step : Escape → ℕ → List ℕ × Escape
unfolding after_plain hex_value
escape_step plain c = after_plain c
escape_step percent c = elim (hex_value c) [
  | some h ↦ ([], digit h c)
  | none ↦ (let (out, e) = after_plain c in (37 ∷ out, e))
]
escape_step (digit h spelled) c = elim (hex_value c) [
  | some l ↦ ((h * 16 + l) ∷ [], plain)
  | none ↦ (let (out, e) = after_plain c in (37 ∷ spelled ∷ out, e))
]

unfinished : Escape → List ℕ
unfinished plain = []
unfinished percent = 37 ∷ []
unfinished (digit h spelled) = 37 ∷ spelled ∷ []

unfoldable pub unquote_from : Escape → Text → List ℕ
unfolding escape_step unfinished
unquote_from e [] = unfinished e
unquote_from e (c ∷ s) = let (out, e') = escape_step e c in out ++ unquote_from e' s

-- A decoded code point; what is no scalar value becomes U+FFFD.
scalar : ℕ → ℕ
unfolding surrogate
scalar c = if surrogate c then 0xfffd else if ltb c 0x110000 then c else 0xfffd

-- The decoder's state: the continuation bytes that are missing, and the bits read.
decode_step : ℕ → ℕ → ℕ → List ℕ × ℕ × ℕ
unfolding scalar
decode_step zero bits b =
    if ltb b 0x80
    then (b ∷ [], 0, 0)
    else if leb 0xc0 b && ltb b 0xe0
    then ([], 1, b - 0xc0)
    else if leb 0xe0 b && ltb b 0xf0
    then ([], 2, b - 0xe0)
    else if leb 0xf0 b && ltb b 0xf8
    then ([], 3, b - 0xf0)
    else (0xfffd ∷ [], 0, 0)
decode_step (suc missing) bits b =
    if leb 0x80 b && ltb b 0xc0
    then if missing == 0
      then (scalar (bits * 64 + (b - 0x80)) ∷ [], 0, 0)
      else ([], missing, bits * 64 + (b - 0x80))
    else (0xfffd ∷ [], 0, 0)

-- `bytes.decode("utf-8", "replace")`, up to the number of U+FFFD that an invalid sequence yields
-- and to overlong forms. Every caller rejects a text that `quote` does not give back.
unfoldable pub utf8_decode : ℕ → ℕ → List ℕ → Text
unfolding decode_step
utf8_decode missing bits [] = if missing == 0 then [] else 0xfffd ∷ []
utf8_decode missing bits (b ∷ bs) =
    let (out, missing', bits') = decode_step missing bits b in out ++ utf8_decode missing' bits' bs

-- `unquote(s)`
unfoldable pub unquote : Text → Text
unfolding unquote_from utf8_decode
unquote s = utf8_decode 0 0 (unquote_from plain s)

round_trip : unquote (text "a%2Fb%D1%8F") ≡ text "a/bя"
unfolding unquote text
round_trip = refl

quoted_name : quote (text "a/bя") ≡ ok (text "a%2Fb%D1%8F")
unfolding quote text
quoted_name = refl
