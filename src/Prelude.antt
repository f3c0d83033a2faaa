-- ===== src/Prelude.antt =====
-- What every module shares: library names, tests on numbers, lists, Python's `str`, exceptions.
mod Tests
mod Lists
mod Strings
mod Results
pub use Tests.*
pub use Lists.*
pub use Strings.{Text, text_eq_sound, text_eq_refl, text_eq_iff, is_empty_text, is_empty_text_sound}
unfoldable pub use Strings.{
  text, text_eq, member_text, starts_with, ends_with, contains_text, remove_prefix, split_on,
  all_codes, any_code,
}
pub use Results.*
pub use Prim.Native.Nat.{ℕ, zero, suc, ◌+◌, ◌-◌, ◌*◌, ◌/◌, ◌%◌, ◌^◌, ◌≤◌, ◌<◌}
pub use Prim.Native.String.{String}
pub use mathlib.Core.Path.{◌≡◌, refl, sym, ap, ◌∙◌}
pub use mathlib.Core.Logic.{◌≢◌, ◌↔◌, ◌⊎◌, inl, inr}
pub use mathlib.Core.Bool.{Bool, true, false, not, ◌&&◌, ◌||◌}
pub use mathlib.Core.Option.{Option, none, some}
pub use mathlib.Core.List.{reverse, List, [], ◌∷◌, ◌++◌, map}
pub use native.Mathlib.Omega.{arith}
