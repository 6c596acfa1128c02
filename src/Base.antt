-- ===== src/Base.antt =====
-- The names that the other modules share: the libraries', passed on, and those of the children.
mod Tests
mod Equality
mod Lists
mod Errors
mod Sets
mod Text
mod Sort
mod Order
mod Reorder
mod Decimal
mod First
unfoldable pub use Decimal.{decimal, join}
pub use Decimal.*
pub use First.*
pub use Reorder.*
pub use Tests.*
unfoldable pub use Equality.{contains, no_duplicates, is_subset, is_disjoint}
pub use Equality.*
unfoldable pub use Lists.{keep, any, all, sum_of}
pub use Lists.*
pub use Errors.*
unfoldable pub use Sets.{discard}
pub use Sets.*
unfoldable pub use Text.{strip}
pub use Text.*
unfoldable pub use Sort.{sorted_by, min_by}
pub use Sort.*
unfoldable pub use Order.{text_lt, pair_lt}
pub use Order.*
pub use Prim.Native.Nat.{ℕ, zero, suc, ◌+◌, ◌-◌, ◌*◌, ◌≤◌, ◌<◌, min, max}
pub use Prim.Native.String.{String}
pub use mathlib.Core.Path.{◌≡◌, refl, sym, ap, subst, ◌∙◌}
pub use mathlib.Core.Logic.{◌≢◌, ◌↔◌, ◌⊎◌, inl, inr}
pub use mathlib.Core.Bool.{Bool, true, false, ◌&&◌, ◌||◌}
pub use mathlib.Core.Option.{Option, none, some, some-injective}
pub use mathlib.Core.List.{List, [], ◌∷◌, ◌++◌, map}
pub use native.Mathlib.Omega.{arith}
