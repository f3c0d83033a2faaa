-- ===== src/Publication/Keys.antt =====
-- src/app_contracts/publication_seed.py: the rules for branch names, and the idempotency key.
use agent00x.Prelude.{
  ℕ, Text, text, text_eq, starts_with, ends_with, contains_text, remove_prefix, split_on, any_code,
  is_empty_text, Bool, false, ◌&&◌, ◌||◌, not, none, some, List, [], ◌∷◌, ◌++◌, Kind, Result, ok,
  raise_if, ◌>>=◌, ◌>>◌, ltb, leb, ◌==◌, length, reverse,
}
use agent00x.Digests.Encoding.{utf8}
use agent00x.Publication.Percent.{quote}
use agent00x.Values.{Value, is_str, text_of}

-- `str.isspace` of one character
unfoldable pub is_space : ℕ → Bool
is_space c =
    (leb 9 c && leb c 13)
    || ((leb 28 c && leb c 32)
        || (c == 0x85
            || (c == 0xa0
                || (c == 0x1680
                    || ((leb 0x2000 c && leb c 0x200a)
                        || (c == 0x2028
                            || (c == 0x2029 || (c == 0x202f || (c == 0x205f || c == 0x3000)))))))))

first_space : Text → Bool
unfolding is_space
first_space [] = false
first_space (c ∷ s) = is_space c

-- `value != value.strip()`: a blank stands at an end.
unfoldable pub blank_ends : Text → Bool
unfolding first_space
blank_ends s = first_space s || first_space (reverse s)

-- `ord(c) < 32 or ord(c) == 127`
unfoldable pub is_control : ℕ → Bool
is_control c = ltb c 32 || c == 127

unfoldable pub member_code : ℕ → Text → Bool
member_code c [] = false
member_code c (a ∷ s) = c == a || member_code c s

unfoldable pub any_part : (Text → Bool) → List Text → Bool
any_part p [] = false
any_part p (s ∷ ss) = p s || any_part p ss

-- `len(value.encode("utf-8"))`, and 256 where it cannot be encoded
unfoldable pub encoded_size : Text → ℕ
unfolding utf8
encoded_size s = elim (utf8 s) [ none ↦ 256 | some bytes ↦ length bytes ]

-- A character that a base branch may not hold.
unfoldable pub refused_in_base : ℕ → Bool
unfolding is_space is_control member_code
refused_in_base c = is_space c || (is_control c || member_code c (text "~^:?*[\\"))

-- A path component that a base branch may not have.
unfoldable pub refused_part : Text → Bool
unfolding text_eq ends_with
refused_part p =
    is_empty_text p
    || (text_eq p (text ".") || (text_eq p (text "..") || ends_with (text ".lock") p))

-- The test of `validate_publication_base_branch` on a `str`.
unfoldable pub bad_base : Text → Bool
unfolding encoded_size blank_ends starts_with ends_with contains_text any_code any_part split_on
bad_base s =
    is_empty_text s
    || (ltb 255 (encoded_size s)
        || (blank_ends s
            || (starts_with (text "-") s
                || (ends_with (text "/") s
                    || (ends_with (text ".") s
                        || (contains_text (text "//") s
                            || (contains_text (text "..") s
                                || (contains_text (text "@{") s
                                    || (any_code refused_in_base s
                                        || any_part refused_part (split_on 47 s))))))))))

-- `validate_publication_base_branch`
unfoldable pub validate_base_branch : Value → Result (Unit {0})
unfolding bad_base is_str text_of
validate_base_branch v =
    raise_if (not (is_str v) || bad_base (text_of v)) Kind.seed_error
      (text "publication intent: base branch is invalid")

abbrev pub branch_namespace : Text
branch_namespace = text "agent/"

-- The first test of `_validate_branch` on a `str`.
unfoldable pub bad_branch : Text → Bool
unfolding blank_ends any_code is_space is_control member_code starts_with
bad_branch s =
    is_empty_text s
    || (blank_ends s
        || (any_code (λ c. is_space c || is_control c) s
            || (member_code 92 s || not (starts_with branch_namespace s))))

-- `_validate_branch`
unfoldable pub validate_branch : Value → Result (Unit {0})
unfolding bad_branch is_str text_of remove_prefix any_part split_on
validate_branch v = do
  raise_if (not (is_str v) || bad_branch (text_of v)) Kind.seed_error
      (text "publication intent: branch is invalid")
  raise_if
      (is_empty_text (remove_prefix branch_namespace (text_of v))
        || any_part is_empty_text (split_on 47 (remove_prefix branch_namespace (text_of v))))
      Kind.seed_error (text "publication intent: branch is invalid")

-- `publication_idempotency_key`
unfoldable pub publication_idempotency_key : Text → Text → Text → Result Text
unfolding quote remove_prefix
publication_idempotency_key branch base_branch staged_change_digest = do
  head ← quote (remove_prefix branch_namespace branch)
  base ← quote base_branch
  ok (text "publish/" ++ (head ++ 47 ∷ (base ++ 47 ∷ staged_change_digest)))
