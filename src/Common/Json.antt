-- ===== src/Common/Json.antt =====
-- `JSON.stringify` and `JSON.parse` on the values of a type, and what the storages of documents rely on.
use mathlib.Core.Path.{◌≡◌}
use node_cqrs.Common.Chars.{Text}

pub record Json (V : Type 0) : Type 0 where
  pub stringify : V → Text
  pub parse : Text → V

-- What is written is read back.
abbrev pub IsRoundTrip : {V : Type 0} → Json V → Type 0
IsRoundTrip {V} json = (v : V) → json.parse (json.stringify v) ≡ v
