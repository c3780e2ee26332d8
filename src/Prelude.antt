-- ===== src/Prelude.antt =====
-- The names that the other modules share: the libraries', passed on, and those of the children.
mod Tests
mod Lists
mod Map
mod Results
mod Chars
pub mod Bits
pub use Tests.*
pub use Lists.*
pub use Results.*
unfoldable pub use Chars.{is_whitespace}
pub use Chars.{
  codes, str_beq, str_beq_iff, str_eq, is_digit, is_ascii_uppercase, is_ascii_lowercase,
  is_ascii_alphanumeric, to_ascii_uppercase, to_ascii_lowercase, select, select-append, decimal,
}
pub use Map.{
  Eq, ◌==◌, nat_eq, keep, Distinct, lookup-insert, insert-Distinct, lookup-remove, remove-Distinct,
  lookup-retain, retain-Distinct, insert_entries, remove_entries, retain_entries,
}
unfoldable pub use Map.{lookup, insert, remove, retain}
pub use Prim.Native.Nat.{ℕ, zero, suc, ◌+◌, ◌-◌, ◌*◌, ◌/◌, ◌%◌, ◌^◌, ◌≤◌, ◌<◌, min, max}
pub use mathlib.Core.Path.{◌≡◌, refl, sym, ap, subst, ◌∙◌}
pub use mathlib.Core.Logic.{◌≢◌, ◌↔◌, ◌⊎◌, inl, inr}
pub use mathlib.Core.Bool.{Bool, true, false, not, ◌&&◌, ◌||◌}
pub use mathlib.Core.Option.{Option, none, some}
pub use mathlib.Core.List.{List, [], ◌∷◌, ◌++◌, map}
pub use native.Mathlib.Omega.{arith}
