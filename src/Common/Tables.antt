-- ===== src/Common/Tables.antt =====
-- The tables of a relational database, with the effect of the statements that the source writes in SQL: the
-- rows of a table under its primary key, so that at most one row has a given key.
use mathlib.Core.Path.{◌≡◌, refl}
use mathlib.Core.Logic.{◌↔◌}
use mathlib.Core.Bool.{Bool, true}
use mathlib.Core.List.{List, [], ◌∷◌}
use mathlib.Core.Option.{Option, none, some}
use Prim.Native.Nat.{ℕ}
use native.Mathlib.Omega.{arith}
use node_cqrs.Common.Logic.{if◌then◌else◌}
use node_cqrs.Common.Chars.{Text, text_eq, text_eq_iff}

-- What a column or a group of columns needs to be a primary key.
pub record Key (K : Type 0) : Type 0 where
  pub same : K → K → Bool
  pub same_iff : (a b : K) → (same a b ≡ true) ↔ (a ≡ b)

instance abbrev pub text_key : Key Text
text_key = record { same = text_eq; same_iff = text_eq_iff }

abbrev pub Table : Type 0 → Type 0 → Type 0
Table K R = List (K × R)

unfoldable pub counted : {R : Type 0} → Option R → ℕ
counted none = 0
counted (some r) = 1

unfoldable pub on_conflict : {R : Type 0} → R → (R → Option R) → Option R → Option R
on_conflict fresh change none = some fresh
on_conflict fresh change (some r) = change r

unfoldable pub on_found : {R : Type 0} → (R → Option R) → Option R → Option R
on_found change none = none
on_found change (some r) = change r

pub same_refl : {K : Type 0} ⦃key : Key K⦄ (k : K) → key.same k k ≡ true
same_refl ⦃key⦄ k = (key.same_iff k k).1 refl

module _ {K : Type 0} ⦃key : Key K⦄ {R : Type 0} where
  -- `SELECT * FROM t WHERE k = ?`
  unfoldable pub find : K → Table K R → Option R
  find k [] = none
  find k ((j, r) ∷ t) = if key.same j k then some r else find k t

  unfoldable pub put : K → R → Table K R → Table K R
  put k r [] = (k, r) ∷ []
  put k r ((j, s) ∷ t) = if key.same j k then (j, r) ∷ t else (j, s) ∷ put k r t

  unfoldable pub remove : K → Table K R → Table K R
  remove k [] = []
  remove k ((j, r) ∷ t) = let rest = remove k t in if key.same j k then rest else (j, r) ∷ rest

  -- The number of the rows that a statement changes, and the table after it.
  unfoldable pub changed : K → Table K R → Option R → ℕ × Table K R
  unfolding put
  changed k t none = (0, t)
  changed k t (some r) = (1, put k r t)

  -- `INSERT INTO t … ON CONFLICT (k) DO UPDATE SET … WHERE …`: `change` is none where the condition fails.
  unfoldable pub upsert : K → R → (R → Option R) → Table K R → ℕ × Table K R
  upsert k fresh change t = changed k t (on_conflict fresh change (find k t))

  -- `UPDATE t SET … WHERE k = ? AND …`
  unfoldable pub update_row : K → (R → Option R) → Table K R → ℕ × Table K R
  update_row k change t = changed k t (on_found change (find k t))

  -- `DELETE FROM t WHERE k = ?`
  unfoldable pub delete_row : K → Table K R → ℕ × Table K R
  delete_row k t = (counted (find k t), remove k t)

  pub find-put :
      (k j : K) (r : R) (t : Table K R)
      → find j (put k r t) ≡ (if key.same k j then some r else find j t)
  unfolding find put
  find-put k j r [] = refl
  find-put k j r ((i, s) ∷ t) =
      ground (arith, key.same_iff k j, key.same_iff i k, key.same_iff i j, find-put k j r t)

  pub find-remove :
      (k j : K) (t : Table K R) → find j (remove k t) ≡ (if key.same k j then none else find j t)
  unfolding find remove
  find-remove k j [] = ground arith
  find-remove k j ((i, s) ∷ t) =
      ground (arith, key.same_iff k j, key.same_iff i k, key.same_iff i j, find-remove k j t)

  pub find-put_self : (k : K) (r : R) (t : Table K R) → find k (put k r t) ≡ some r
  find-put_self k r t = rw (find-put k k r t) (rw (same_refl k) refl)

  pub find-remove_self : (k : K) (t : Table K R) → find k (remove k t) ≡ none
  find-remove_self k t = rw (find-remove k k t) (rw (same_refl k) refl)

  pub upsert-on_conflict :
      (k : K) (fresh : R) (change : R → Option R) (t : Table K R) (o : Option R)
      → on_conflict fresh change (find k t) ≡ o
      → upsert k fresh change t ≡ changed k t o
  unfolding upsert
  upsert-on_conflict k fresh change t o h = rw (h) refl

  pub update_row-on_found :
      (k : K) (change : R → Option R) (t : Table K R) (o : Option R)
      → on_found change (find k t) ≡ o
      → update_row k change t ≡ changed k t o
  unfolding update_row
  update_row-on_found k change t o h = rw (h) refl
