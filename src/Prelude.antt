-- ===== src/Prelude.antt =====
-- The names that the other modules share: the libraries', passed on, and those of the children.
mod Tests
mod Lists
mod Texts
mod Rows
mod Maps
mod Splits
pub mod Exec
pub mod Keeps
pub use Tests.*
pub use Lists.*
unfoldable pub use Texts.{
  Text, codes, text_eq, starts_with, strip_suffix, ends_with, trim_end_matches, replace,
}
pub use Texts.{
  text_eq_iff, text_eq_refl, starts_with_iff, strip_suffix_iff, strip_suffix-append,
  not-starts_with_longer,
}
unfoldable pub use Rows.{find, select, update_where, order_by}
pub use Rows.Laws.*
unfoldable pub use Maps.{Map, lookup, insert, remove, or_default, push_entry}
pub use Maps.{lookup-insert, lookup-remove, lookup-push_entry}
unfoldable pub use Splits.{split_on, split_once, strip_prefix, trim, lines, split_whitespace}
pub use Splits.{split_on-cons, split_on-append}
pub use Prim.Native.Nat.{ℕ, zero, suc, ◌+◌, ◌-◌, ◌*◌, ◌/◌, ◌≤◌, ◌<◌, min, max}
pub use mathlib.Core.Path.{◌≡◌, refl, sym, ap, ◌∙◌}
pub use mathlib.Core.Logic.{◌≢◌, ◌↔◌, ◌⊎◌, inl, inr}
pub use mathlib.Core.Bool.{Bool, true, false, not, ◌&&◌, ◌||◌}
pub use mathlib.Core.Option.{Option, none, some}
pub use mathlib.Core.List.{List, [], ◌∷◌, ◌++◌, map}
pub use native.Mathlib.Omega.{arith}
