-- ===== src/Base.antt =====
-- The names that the other modules share: the libraries', passed on, and those of the children.
mod Tests
mod Lists
mod Equality
mod Texts
mod Paths
mod Words
mod Sort
mod Encoding
pub use Tests.*
pub use Lists.*
unfoldable pub use Lists.{any, all, retain, find}
pub use Equality.*
unfoldable pub use Equality.{list_beq, option_beq, contains, distinct}
pub use Texts.*
unfoldable pub use Texts.{
  char_len, byte_len, is_whitespace, trim_start, trim, trim_end_char, starts_with, has_substring,
  replace_char, lines, join_lines,
}
pub use Paths.*
unfoldable pub use Paths.{
  component_beq, is_absolute, path_starts_with, strip_prefix, file_name, extension, path_text,
}
pub use Encoding.*
unfoldable pub use Encoding.{char_bytes, as_bytes, to_be_bytes, decimal}
pub use Sort.*
unfoldable pub use Sort.{insert_by, sort_by, text_le, component_le, path_le}
pub use Words.*
unfoldable pub use Words.{saturating_add, checked_add, narrow, clamp}
pub use Prim.Native.Nat.{ℕ, zero, suc, ◌+◌, ◌-◌, ◌*◌, ◌/◌, ◌%◌, ◌^◌, ◌≤◌, ◌<◌}
pub use Prim.Native.String.{String}
pub use mathlib.Core.Path.{◌≡◌, refl, sym, ap, ap₂, ◌∙◌, subst}
pub use mathlib.Core.Logic.{◌≢◌, ◌↔◌, ◌⊎◌, inl, inr}
pub use mathlib.Core.Bool.{Bool, true, false, not, ◌&&◌, ◌||◌}
pub use mathlib.Core.Option.{Option, none, some}
pub use mathlib.Core.List.{List, [], ◌∷◌, ◌++◌, map}
pub use native.Mathlib.Omega.{arith}
