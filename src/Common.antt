-- ===== src/Common.antt =====
-- The names that the other modules share: those of the libraries, passed on, and those of the
-- children: tests and conditionals, lists, integers, and errors.
mod Tests
mod Lists
mod Text
pub mod Int
mod Results
pub use Tests.*
pub use Results.{
  Outcome, done, failed, after, Run, returned, raised, panicked, ◌>>=◌, Safe, bind-Safe, map-Safe,
  bind-returned,
}
pub use Lists.*
pub use Text.{
  Bytes, bytes_eq_iff, bytes_eq_refl, is_empty, Any, null, number, text, boolean, integer, opaque,
}
unfoldable pub use Text.{bytes_eq}
pub use Prim.Native.Nat.{ℕ, zero, suc, ◌+◌, ◌-◌, ◌*◌, ◌/◌, ◌%◌, ◌^◌, ◌≤◌, ◌<◌, min}
pub use mathlib.Core.Path.{◌≡◌, refl, sym, ap, subst, ◌∙◌}
pub use mathlib.Core.Logic.{◌≢◌, ◌↔◌, ◌⊎◌, inl, inr}
pub use mathlib.Core.Bool.{Bool, true, false, not, ◌&&◌, ◌||◌}
pub use mathlib.Core.Option.{Option, none, some}
pub use mathlib.Core.List.{List, [], ◌∷◌, ◌++◌, map, append-nil, append_assoc}
pub use native.Mathlib.Omega.{arith}
