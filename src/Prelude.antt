-- ===== src/Prelude.antt =====
-- The names that the other modules share: the libraries', passed on, and those of the children.
mod Tests
mod Lists
mod Strings
mod StringLaws
mod Table
mod Paths
mod Floats
pub use Tests.*
pub use Lists.*
unfoldable pub use Strings.{
  text_eq, to_lower_byte, to_lower, has_prefix, trim_prefix, has_suffix, trim_suffix, contains,
  split_on, join, is_space, trim_space, replace_from, replace_all, print_nat,
}
pub use Strings.{Text, codes}
pub use StringLaws.*
unfoldable pub use Paths.{
  drop_slashes, after_last, path_base, path_ext, clean_step, clean_elements, path_clean, path_join,
}
unfoldable pub use Floats.{of_int, add_float, mul_float, div_float, trunc}
pub use Floats.{Float, AtMost}
pub use Floats.Rounding.{
  of_int-AtMost, add_float-AtMost, mul_float-AtMost, div_float-AtMost, trunc-bound,
}
unfoldable pub use Table.{find_row, is_row, update_row, delete_row}
pub use Table.{
  has_key, KeepsKey, find_row-update_row, find_row-update_other, is_row-update_row,
  find_row_of_is_row, find_row-none, is_row_of_find_row, find_row-key, find_row-append,
  find_row-map, find_row-keep,
}
pub use Prim.Native.Nat.{ℕ, zero, suc, ◌+◌, ◌-◌, ◌*◌, ◌/◌, ◌%◌, ◌^◌, ◌≤◌, ◌<◌}
pub use mathlib.Core.Path.{◌≡◌, refl, sym, ap, ap₂, subst, ◌∙◌}
pub use mathlib.Core.Logic.{◌≢◌, ◌↔◌, ◌⊎◌, inl, inr}
pub use mathlib.Core.Bool.{Bool, true, false, not, ◌&&◌, ◌||◌}
pub use mathlib.Core.Option.{Option, none, some}
pub use mathlib.Core.List.{List, [], ◌∷◌, ◌++◌, map, reverse, append-nil, append_assoc}
pub use native.Mathlib.Omega.{arith}
