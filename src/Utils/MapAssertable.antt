-- ===== src/Utils/MapAssertable.antt =====
-- src/utils/MapAssertable.ts: a map whose entries are made on demand, counted and dropped with
-- their last user. A factory may act on the world `W` around the map, as the factories of the
-- command handler do: it reads an event store.
pub mod Counting
pub mod Laziness
use node_cqrs.Common.{
  ℕ, suc, ◌+◌, ◌-◌, Bool, true, false, ◌&&◌, ◌||◌, not, Option, none, some, [], Text, Assoc, lookup,
  insert, erase, has, or_else, ltb, if◌then◌else◌,
}

module _ (W V : Type 0) where
  -- The superclass `Map`, the usage counters and the factories.
  pub record MapAssertable : Type 0 where
    pub entries : Assoc V
    pub usage_counter : Assoc ℕ
    pub factories : Assoc (W → V × W)

module _ {W V : Type 0} where
  abbrev pub empty : MapAssertable W V
  empty = record { entries = []; usage_counter = []; factories = [] }

  -- `set` of `Map`
  unfoldable pub set : Text → V → MapAssertable W V → MapAssertable W V
  set k v m = record m { entries = insert k v m.entries }

  unfoldable pub has_key : MapAssertable W V → Text → Bool
  has_key m k = has k m.entries || has k m.factories

  unfoldable pub delete : Text → MapAssertable W V → MapAssertable W V
  delete k m = record m { entries = erase k m.entries; factories = erase k m.factories }

  unfoldable pub set_lazy : Text → (W → V × W) → MapAssertable W V → MapAssertable W V
  unfolding delete
  set_lazy k factory m =
      let m' = delete k m in record m' { factories = insert k factory m'.factories }

  run_factory : Text → Option (W → V × W) → MapAssertable W V → W → MapAssertable W V × W
  unfolding set
  run_factory k none m w = (m, w)
  run_factory k (some factory) m w =
      let (v, w') = factory w in (set k v (record m { factories = erase k m.factories }), w')

  unfoldable pub get : Text → MapAssertable W V → W → Option V × (MapAssertable W V × W)
  unfolding run_factory
  get k m w =
      let (m', w') = run_factory k (lookup k m.factories) m w in (lookup k m'.entries, (m', w'))

  unfoldable pub usage : MapAssertable W V → Text → ℕ
  usage m k = or_else (lookup k m.usage_counter) 0

  make_entry : Bool → Text → (W → V × W) → MapAssertable W V → W → MapAssertable W V × W
  unfolding set
  make_entry true k factory m w = (m, w)
  make_entry false k factory m w = let (v, w') = factory w in (set k v m, w')

  unfoldable pub assert :
      Text → (W → V × W) → MapAssertable W V → W → Option V × (MapAssertable W V × W)
  unfolding make_entry has_key usage get
  assert k factory m w =
      let (m', w') = make_entry (has_key m k) k factory m w in
      get k (record m' { usage_counter = insert k (usage m' k + 1) m'.usage_counter }) w'

  unfoldable pub release : Text → MapAssertable W V → MapAssertable W V
  unfolding delete usage
  release k m =
      if ltb 1 (usage m k)
      then record m { usage_counter = insert k (usage m k - 1) m.usage_counter }
      else delete k (record m { usage_counter = erase k m.usage_counter })
