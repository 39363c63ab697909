-- ===== src/InMemory/View.antt =====
-- src/in-memory/InMemoryView.ts, with the lock of src/in-memory/InMemoryLock.ts of which only its state
-- counts here. A record is a value: an update returns the new one, or nothing if it keeps the
-- record that it was given. Callbacks may throw. `none` where a call awaits the view. While a bulk operation runs, nothing else changes the
-- map.
pub mod Bulk
use node_cqrs.Common.{
  Bool, true, false, not, ◌&&◌, Option, none, some, List, [], ◌∷◌, Text, Assoc, lookup, insert,
  erase, has, or_else, truthy, if◌then◌else◌,
}
use node_cqrs.Messages.{Result, ok, err, ◌>>=◌, Error, plain_error, type_error}

pub record View (V : Type 0) : Type 0 where
  pub map : Assoc V
  pub locked : Bool

-- `assertDefined(key)` before the rest of a method that changes the map
unfoldable pub if_defined :
    {V : Type 0}
    → Text
    → (Assoc V → Result (Unit {0}) × Assoc V)
    → Assoc V
    → Result (Unit {0}) × Assoc V
if_defined k rest m = if truthy k then rest m else (err type_error, m)

module _ {V : Type 0} where
  -- `applyUpdate`
  unfoldable pub apply_update : (V → Result (Option V)) → V → Result V
  apply_update update view = update view >>= (λ returned. ok (or_else returned view))

  unfoldable pub ready : View V → Bool
  ready v = not v.locked

  unfoldable pub lock : View V → Option (View V)
  lock v = if v.locked then none else some (record v { locked = true })

  unfoldable pub unlock : View V → View V
  unlock v = record v { locked = false }

  unfoldable pub get_sync : Text → Assoc V → Result (Option V)
  get_sync k m = if truthy k then ok (lookup k m) else err type_error

  unfoldable pub get : Text → Bool → View V → Option (Result (Option V))
  unfolding ready get_sync
  get k nowait v =
      if truthy k && (not (ready v) && not nowait) then none else some (get_sync k v.map)

  -- `!filter || filter(entry[1], entry[0])`
  chosen_entry : Option (V → Text → Result Bool) → Text → V → Result Bool
  chosen_entry none k x = ok true
  chosen_entry (some p) k x = p x k

  -- The loop of `getAll`
  unfoldable pub filter_entries : Option (V → Text → Result Bool) → Assoc V → Result (Assoc V)
  unfolding chosen_entry
  filter_entries p [] = ok []
  filter_entries p ((k, x) ∷ es) = do
    chosen ← chosen_entry p k x
    rest ← filter_entries p es
    ok (if chosen then (k, x) ∷ rest else rest)

  unfoldable pub get_all : Option (V → Text → Result Bool) → View V → Option (Result (Assoc V))
  unfolding ready
  get_all p v = if ready v then some (filter_entries p v.map) else none

  -- `create`; `blank` is the record `{}`.
  unfoldable pub create : V → Text → Option V → Assoc V → Result (Unit {0}) × Assoc V
  unfolding if_defined
  create blank k value =
      if_defined k
        (λ m. if has k m then (err plain_error, m) else (ok tt, insert k (or_else value blank) m))

  set_updated : Text → Result V → Assoc V → Result (Unit {0}) × Assoc V
  set_updated k (err e) m = (err e, m)
  set_updated k (ok x) m = (ok tt, insert k x m)

  update_found : Text → (V → Result (Option V)) → Option V → Assoc V → Result (Unit {0}) × Assoc V
  unfolding set_updated
  update_found k f none m = (err plain_error, m)
  update_found k f (some x) m = set_updated k (apply_update f x) m

  -- `_update`
  unfoldable pub update_entry :
      Text → (V → Result (Option V)) → Assoc V → Result (Unit {0}) × Assoc V
  unfolding update_found
  update_entry k f m = update_found k f (lookup k m) m

  unfoldable pub update : Text → (V → Result (Option V)) → Assoc V → Result (Unit {0}) × Assoc V
  unfolding if_defined update_entry
  update k f = if_defined k (update_entry k f)

  create_updated : V → Text → Result (Option V) → Assoc V → Result (Unit {0}) × Assoc V
  create_updated blank k (err e) m = (err e, m)
  create_updated blank k (ok value) m = create blank k value m

  unfoldable pub update_enforcing_new :
      V → Text → (Option V → Result (Option V)) → Assoc V → Result (Unit {0}) × Assoc V
  unfolding if_defined create_updated
  update_enforcing_new blank k f = if_defined k (λ m.
      let created = create_updated blank k (f none) m in
      let updated = update_entry k (λ x. f (some x)) m in if has k m then updated else created)

  unfoldable pub delete : Text → Assoc V → Result (Unit {0}) × Assoc V
  unfolding if_defined
  delete k = if_defined k (λ m. (ok tt, erase k m))

  go_on :
      (Assoc V → Result (Unit {0}) × Assoc V)
      → Result (Unit {0}) × Assoc V
      → Result (Unit {0}) × Assoc V
  go_on rest (ok u, m) = rest m
  go_on rest (err e, m) = (err e, m)

  -- `for (const [key, value] of this._map)`, until a step throws. A step changes its own entry
  -- only, so an entry that is yet to come is as it was.
  unfoldable pub for_each :
      (Text → V → Assoc V → Result (Unit {0}) × Assoc V)
      → Assoc V
      → Assoc V
      → Result (Unit {0}) × Assoc V
  unfolding go_on
  for_each step [] m = (ok tt, m)
  for_each step ((k, x) ∷ es) m = go_on (for_each step es) (step k x m)

  -- `!filter || filter(value)`
  unfoldable pub chosen : Option (V → Result Bool) → V → Result Bool
  chosen none x = ok true
  chosen (some p) x = p x

  if_chosen :
      Result Bool → (Assoc V → Result (Unit {0}) × Assoc V) → Assoc V → Result (Unit {0}) × Assoc V
  if_chosen (err e) act m = (err e, m)
  if_chosen (ok true) act m = act m
  if_chosen (ok false) act m = (ok tt, m)

  unfoldable pub update_all :
      Option (V → Result Bool) → (V → Result (Option V)) → Assoc V → Result (Unit {0}) × Assoc V
  unfolding if_chosen for_each
  update_all p f m = for_each (λ k x. if_chosen (chosen p x) (update_entry k f)) m m

  unfoldable pub delete_all : Option (V → Result Bool) → Assoc V → Result (Unit {0}) × Assoc V
  unfolding if_chosen for_each
  delete_all p m = for_each (λ k x. if_chosen (chosen p x) (delete k)) m m
