-- ===== src/Prelude/Strings.antt =====
-- Python's `str` is a list of code points; a literal is written `text "…"`.
use Prim.Native.Char.{code}
use Prim.Native.Nat.{ℕ}
use Prim.Native.String.{String}
use mathlib.Core.Bool.{Bool, true, false, ◌&&◌, ◌||◌}
use mathlib.Core.List.{List, [], ◌∷◌, reverse}
use mathlib.Core.Logic.{◌↔◌}
use mathlib.Core.Path.{◌≡◌, refl}
use native.Mathlib.Omega.{arith}
use agent00x.Prelude.Tests.{◌==◌, if◌then◌else◌}

abbrev pub Text : Type 0
Text = List ℕ

unfoldable pub text : String → Text
text String.[] = []
text (String.◌∷◌ c s) = code c ∷ text s

unfoldable pub text_eq : Text → Text → Bool
text_eq [] [] = true
text_eq (a ∷ s) (b ∷ t) = a == b && text_eq s t
text_eq _ _ = false

pub text_eq_sound : (s t : Text) → text_eq s t ≡ true → s ≡ t
unfolding text_eq
text_eq_sound [] [] h = refl
text_eq_sound [] (b ∷ t) h = ground arith
text_eq_sound (a ∷ s) [] h = ground arith
text_eq_sound (a ∷ s) (b ∷ t) h = ground (arith, text_eq_sound s t)

pub text_eq_refl : (s : Text) → text_eq s s ≡ true
unfolding text_eq
text_eq_refl [] = refl
text_eq_refl (a ∷ s) = ground (arith, text_eq_refl s)

pub text_eq_iff : (s t : Text) → (text_eq s t ≡ true) ↔ (s ≡ t)
text_eq_iff s t = (text_eq_sound s t, λ e. rw e (text_eq_refl t))

-- `not value` of a `str`
abbrev pub is_empty_text : Text → Bool
is_empty_text [] = true
is_empty_text (_ ∷ _) = false

pub is_empty_text_sound : (s : Text) → is_empty_text s ≡ true → s ≡ []
is_empty_text_sound [] h = refl
is_empty_text_sound (a ∷ s) h = ground arith

-- `x in {…}`
unfoldable pub member_text : Text → List Text → Bool
unfolding text_eq
member_text x [] = false
member_text x (y ∷ ys) = text_eq x y || member_text x ys

-- `s.startswith(p)`
unfoldable pub starts_with : Text → Text → Bool
starts_with [] s = true
starts_with (a ∷ p) [] = false
starts_with (a ∷ p) (b ∷ s) = a == b && starts_with p s

-- `s.endswith(p)`
unfoldable pub ends_with : Text → Text → Bool
unfolding starts_with
ends_with p s = starts_with (reverse p) (reverse s)

-- `p in s`
unfoldable pub contains_text : Text → Text → Bool
unfolding starts_with
contains_text p [] = starts_with p []
contains_text p (a ∷ s) = starts_with p (a ∷ s) || contains_text p s

-- `s.removeprefix(p)`: the rest after `p`, and `s` itself where `p` is no prefix
drop_prefix : Text → Text → Text → Text
drop_prefix whole [] s = s
drop_prefix whole (a ∷ p) [] = whole
drop_prefix whole (a ∷ p) (b ∷ s) = if a == b then drop_prefix whole p s else whole

unfoldable pub remove_prefix : Text → Text → Text
unfolding drop_prefix
remove_prefix p s = drop_prefix s p s

-- `s.split(c)` for one character
prepend_code : ℕ → List Text → List Text
prepend_code a [] = (a ∷ []) ∷ []
prepend_code a (w ∷ ws) = (a ∷ w) ∷ ws

unfoldable pub split_on : ℕ → Text → List Text
unfolding prepend_code
split_on c [] = [] ∷ []
split_on c (a ∷ s) = let rest = split_on c s in if a == c then [] ∷ rest else prepend_code a rest

-- `all(p(c) for c in s)` and `any(p(c) for c in s)`
unfoldable pub all_codes : (ℕ → Bool) → Text → Bool
all_codes p [] = true
all_codes p (a ∷ s) = p a && all_codes p s

unfoldable pub any_code : (ℕ → Bool) → Text → Bool
any_code p [] = false
any_code p (a ∷ s) = p a || any_code p s
