-- ===== src/Prelude.antt =====
-- The names that all modules share: those of the libraries, passed on, and those of the children,
-- which model what the program uses of Go and of its standard library.
pub mod Bools
pub mod Int
pub mod Lists
pub mod Errors
pub mod Text
pub mod Order
pub mod Sort
pub mod Maps
pub mod Decimal
pub mod Exec
pub mod Times
pub mod Floats
pub use Bools.*
unfoldable pub use Int.{product_int64}
pub use Int.*
pub use Lists.*
pub use Text.{is_blank}
unfoldable pub use Text.{trim_space, is_space}
pub use Times.*
pub use Decimal.{◌+s◌, digit_char}
unfoldable pub use Decimal.{digits_text, fill_digits, show_ℕ, show_ℤ}
unfoldable pub use Sort.{insert_by, sort_slice}
pub use Sort.*
pub use Order.*
pub use Floats.*
pub use Errors.{Error, Result, ok, err, Result-cases}
pub use Maps.{
  Dict, is_some, or_not_found, or_not_found-ok, lookup-insert, lookup-remove, length-insert,
  HasKeys, insert-HasKeys, All-lookup, All-of_lookup,
}
unfoldable pub use Maps.{lookup, insert, remove, values}
pub use Prim.Native.Nat.{ℕ, zero, suc, ◌+◌, ◌-◌, ◌*◌, ◌/◌, ◌%◌, ◌^◌, ◌≤◌, ◌<◌}
pub use Prim.Native.String.{String}
pub use mathlib.Core.Path.{◌≡◌, refl, sym, ap, ◌∙◌, subst}
pub use mathlib.Core.Logic.{◌≢◌, ◌↔◌, ◌⊎◌, inl, inr}
pub use mathlib.Core.Bool.{Bool, true, false, not, ◌&&◌, ◌||◌}
pub use mathlib.Core.Option.{Option, none, some}
pub use mathlib.Core.List.{List, [], ◌∷◌, ◌++◌, map}
pub use native.Mathlib.Omega.{arith}
pub use text.Mathlib.TextEquality.{eq_iff}
pub use text.Mathlib.TextPositions.{eq_refl}
