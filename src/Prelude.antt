-- ===== src/Prelude.antt =====
-- The names that the other modules share: the library's, passed on, and those of the children.
mod Tests
mod Lists
mod Texts
mod Dicts
mod Numerals
mod Results
pub use Tests.*
pub use Lists.*
pub use Results.*
pub use Dicts.{Dict, lookup-nil, lookup-put, count_values-push}
unfoldable pub use Dicts.{lookup, put, push, count_values}
unfoldable pub use Texts.{Text, codes, text, char_of_digit, show_nat_from, show_nat, text_eq}
pub use Texts.{text_eq_refl, text_eq_sound, text_eq_iff}
pub use Numerals.{show_nat-injective, show_nat-All}
pub use Prim.Native.Nat.{
  ℕ, zero, suc, ◌+◌, ◌-◌, ◌*◌, ◌/◌, ◌%◌, ◌^◌, ◌≤◌, ◌<◌, max, min, compare, Ordering,
}
pub use Prim.Native.String.{String}
pub use mathlib.Core.Path.{◌≡◌, refl, sym, ap, ◌∙◌, subst, fun_ext}
pub use mathlib.Core.Logic.{◌≢◌, ◌↔◌, ◌⊎◌, inl, inr}
pub use mathlib.Core.Bool.{Bool, true, false, not, ◌&&◌, ◌||◌}
pub use mathlib.Core.Option.{Option, none, some}
pub use mathlib.Core.List.{List, [], ◌∷◌, ◌++◌, map, append_assoc, append-nil}
pub use native.Mathlib.Omega.{arith}
