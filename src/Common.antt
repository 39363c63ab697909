-- ===== src/Common.antt =====
-- The names that the other modules share: the libraries', passed on, and those of the children.
mod Logic
mod Chars
mod Maps
pub mod Lists
pub mod Tables
pub mod Json
pub use Logic.*
pub use Chars.{
  Text, codes, text_eq_iff, text_eq_refl, text_eq_sound, truthy, present, passes_text, truthy_of_ne,
}
unfoldable pub use Chars.{text_eq}
pub use Maps.{Assoc, lookup-insert, lookup-erase, lookup-insert_self, lookup-erase_self}
pub use Maps.{assoc_laws}
unfoldable pub use Maps.{lookup, insert, erase, has}
pub use Prim.Native.Nat.{ℕ, zero, suc, ◌+◌, ◌-◌, ◌*◌, ◌≤◌, ◌<◌}
pub use mathlib.Core.Path.{◌≡◌, refl, sym, ap, subst, ◌∙◌}
pub use mathlib.Core.Logic.{◌≢◌, ◌↔◌, ◌⊎◌, inl, inr}
pub use mathlib.Core.Bool.{Bool, true, false, ◌&&◌, ◌||◌, not}
pub use mathlib.Core.Option.{Option, none, some}
pub use mathlib.Core.List.{List, [], ◌∷◌, ◌++◌, map, append-nil, append_assoc}
pub use native.Mathlib.Omega.{arith}
