-- ===== src/Prelude.antt =====
-- The names that the other modules share: the libraries', passed on, and those of the children.
mod Tests
mod Lists
mod Maps
mod Chars
mod Json
mod Hex
mod Decimal
mod Integers
pub use Tests.*
pub use Lists.*
pub use Maps.*
pub use Chars.*
pub use Json.*
pub use Hex.*
pub use Decimal.*
pub use Integers.*
unfoldable pub use Decimal.{decimal}
unfoldable pub use Hex.{hex_digit, hex_padded}
unfoldable pub use Json.{starts_with, contains}
unfoldable pub use Tests.{text_eq}
unfoldable pub use Maps.{lookup, insert, remove, retain}
unfoldable pub use Chars.{
  is_whitespace, is_ascii_whitespace, is_ascii_digit, is_ascii_alphanumeric, to_ascii_lower,
  to_ascii_upper, to_ascii_lowercase, to_ascii_uppercase, trim_start, trim_end, trim, len_utf8,
  byte_len, is_empty, parse_digits, parse_unsigned,
}
pub use Prim.Native.Nat.{ℕ, zero, suc, ◌+◌, ◌-◌, ◌*◌, ◌/◌, ◌%◌, ◌^◌, ◌≤◌, ◌<◌, min, max}
pub use mathlib.Core.Path.{◌≡◌, refl, sym, ap, subst, ◌∙◌}
pub use mathlib.Core.Logic.{◌≢◌, ◌↔◌, ◌⊎◌, inl, inr}
pub use mathlib.Core.Bool.{Bool, true, false, not, ◌&&◌, ◌||◌}
pub use mathlib.Core.Option.{Option, none, some}
pub use mathlib.Core.List.{List, [], ◌∷◌, ◌++◌, map}
pub use native.Mathlib.Omega.{arith}
