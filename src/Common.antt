-- ===== src/Common.antt =====
-- Names that every other file uses: the library's, passed on, and the helpers of the children
-- (Boolean tests, machine words, arrays, the monad of code that may stop at an assertion).
mod Tests
mod Words
mod Arrays
mod Abort
pub use Tests.*
pub use Words.*
pub use Arrays.*
pub use Abort.*
pub use Prim.Native.Nat.{ℕ, zero, suc, ◌+◌, ◌-◌, ◌*◌, ◌/◌, ◌%◌, ◌^◌, ◌≤◌, ◌<◌}
pub use mathlib.Core.Path.{◌≡◌, refl, sym, ap, subst, ◌∙◌, fun_ext}
pub use mathlib.Core.Logic.{◌≢◌, ◌↔◌, ◌⊎◌, inl, inr}
pub use mathlib.Core.Bool.{Bool, true, false, not, ◌&&◌, ◌||◌}
pub use mathlib.Core.Option.{Option, none, some}
pub use mathlib.Core.List.{List, [], ◌∷◌, ◌++◌, map}
pub use native.Mathlib.Omega.{arith}
