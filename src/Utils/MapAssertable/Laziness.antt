-- ===== src/Utils/MapAssertable/Laziness.antt =====
-- A factory runs when its entry is first needed, and once.
use node_cqrs.Common.{
  ◌+◌, ◌≡◌, refl, sym, ap, ◌∙◌, false, none, some, Text, lookup, erase, has, insert, arith,
  lookup-insert_self, lookup-erase_self,
}
use node_cqrs.Utils.MapAssertable.{
  MapAssertable, has_key, set_lazy, get, usage, assert, run_factory, make_entry,
}

module _ {W V : Type 0} where
  -- The entry of the key is there, and no factory waits for it.
  pub record IsReady (k : Text) (v : V) (m : MapAssertable W V) : Type 0 where
    pub present : lookup k m.entries ≡ some v
    pub settled : lookup k m.factories ≡ none

  pub get-IsReady :
      (k : Text) (v : V) (m : MapAssertable W V) (w : W)
      → IsReady k v m
      → get k m w ≡ (some v, (m, w))
  unfolding get run_factory
  get-IsReady k v m w h = rw (h.settled, run_factory) (rw h.present)

  pub assert-IsReady :
      (k : Text) (v : V) (factory : W → V × W) (m : MapAssertable W V) (w : W)
      → IsReady k v m
      → assert k factory m w
        ≡ (some v, (record m { usage_counter = insert k (usage m k + 1) m.usage_counter }, w))
  unfolding assert has_key has make_entry
  assert-IsReady k v factory m w h =
      rw (h.present, make_entry)
        (get-IsReady k v (record m { usage_counter = insert k (usage m k + 1) m.usage_counter }) w
          (record { present = h.present; settled = h.settled }))

  set_lazy-IsReady :
      (k : Text) (factory : W → V × W) (m : MapAssertable W V) (w : W)
      → let first = get k (set_lazy k factory m) w in
        IsReady k (factory w).0 first.1.0
        × (first.0 ≡ some (factory w).0)
        × (first.1.1 ≡ (factory w).1)
  unfolding get set_lazy run_factory
  set_lazy-IsReady k factory m w =
      rw (lookup-insert_self k factory (erase k m.factories), run_factory)
        (
          record {
            present = lookup-insert_self k (factory w).0 (erase k m.entries);
            settled = lookup-erase_self k (insert k factory (erase k m.factories));
          },
          lookup-insert_self k (factory w).0 (erase k m.entries),
          refl,
        )

  -- A lazy entry is made by the first read, in the world of that read. A second read returns the
  -- same value and leaves the map and the world alone.
  pub get-set_lazy :
      (k : Text) (factory : W → V × W) (m : MapAssertable W V) (w u : W)
      → let first = get k (set_lazy k factory m) w in
        (first.0 ≡ some (factory w).0)
        × (first.1.1 ≡ (factory w).1)
        × (get k first.1.0 u ≡ (first.0, (first.1.0, u)))
  get-set_lazy k factory m w u =
      let first = (get k (set_lazy k factory m) w).1.0 in
      let (made, value, world) = set_lazy-IsReady k factory m w in
      (
        value,
        world,
        get-IsReady k (factory w).0 first u made ∙ ap (λ r. (r, (first, u))) (sym value),
      )

  no_factory :
      (k : Text) (m : MapAssertable W V) → has_key m k ≡ false → lookup k m.factories ≡ none
  unfolding has_key has
  no_factory k m h = ground arith

  pub assert_fresh :
      (k : Text) (f : W → V × W) (m : MapAssertable W V) (w : W)
      → has_key m k ≡ false
      → let first = assert k f m w in IsReady k (f w).0 first.1.0 × (first.0 ≡ some (f w).0)
  unfolding assert get
  assert_fresh k f m w fresh =
      rw (fresh, make_entry, no_factory k m fresh, run_factory)
        (
          record {
            present = lookup-insert_self k (f w).0 m.entries;
            settled = no_factory k m fresh;
          },
          lookup-insert_self k (f w).0 m.entries,
        )

  -- The first user's entry serves the second: the second factory does not run, and the value is
  -- the same.
  pub assert-assert :
      (k : Text) (f g : W → V × W) (m : MapAssertable W V) (w u : W)
      → has_key m k ≡ false
      → let first = assert k f m w in
        (first.0 ≡ some (f w).0)
        × ((assert k g first.1.0 u).0 ≡ first.0)
        × ((assert k g first.1.0 u).1.1 ≡ u)
  assert-assert k f g m w u fresh =
      let (ready, value) = assert_fresh k f m w fresh in
      let second = assert-IsReady k (f w).0 g (assert k f m w).1.0 u ready in
      (value, ap (λ r. r.0) second ∙ sym value, ap (λ r. r.1.1) second)
