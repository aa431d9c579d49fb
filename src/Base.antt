-- ===== src/Base.antt =====
-- The names that the other modules share: the libraries', passed on, and those of the children.
mod Tests
mod Lists
pub mod Strings
pub use Tests.*
pub use Prim.Native.Nat.{ℕ, zero, suc, ◌+◌, ◌-◌, ◌*◌, ◌≤◌, ◌<◌}
pub use mathlib.Core.Path.{◌≡◌, refl, sym, ap, ◌∙◌, subst}
pub use mathlib.Core.Logic.{◌≢◌, ◌↔◌, ◌⊎◌, inl, inr}
pub use mathlib.Core.Bool.{Bool, true, false, not, ◌&&◌, ◌||◌}
pub use mathlib.Core.Option.{Option, none, some}
pub use mathlib.Core.List.{List, [], ◌∷◌, ◌++◌, map}
pub use native.Mathlib.Omega.{arith}
pub use Strings.{Text, ==_iff, ==_refl}
unfoldable pub use Strings.{
  text, ◌==◌, cut_prefix, has_prefix, trim_prefix, has_suffix, trim_suffix, is_space, trim_left,
  trim_space, trim_right, split_at_first,
}
pub use Lists.{
  length, All, Among, all, any, count_p, keep, all-append, keep-append, contains-append,
  delete-absent, contains-cons, contains-cons_of, contains_self, contains-snoc, All-append,
  All-snoc, contains-append_left, contains-last, delete-cons_self, All-weaken, All-Among,
}
unfoldable pub use Lists.{contains, delete}
