-- ===== src/Utils/MapAssertable/Counting.antt =====
-- An entry lives exactly as long as somebody uses it.
use node_cqrs.Common.{
  ◌+◌, ◌-◌, ◌<◌, ◌≡◌, ◌↔◌, ◌∙◌, if◌then◌else◌, text_eq, refl, Bool, true, false, Option, none, some,
  Text, lookup, erase, has, insert, arith, text_eq_iff, lookup-insert, lookup-erase,
}
use node_cqrs.Utils.MapAssertable.{
  MapAssertable, set, has_key, set_lazy, get, usage, assert, release, run_factory, make_entry,
}

module _ {W V : Type 0} where
  -- The keys of the map are the keys in use.
  pub record IsCounted (m : MapAssertable W V) : Type 0 where
    pub used : (k : Text) → (has_key m k ≡ true) ↔ (0 < usage m k)

  -- A release keeps the count right, whether it is the last one or not.
  pub release-IsCounted : (k : Text) (m : MapAssertable W V) → IsCounted m → IsCounted (release k m)
  unfolding release has_key usage has
  release-IsCounted k m v = record {
    used = λ j. ground (
      arith,
      text_eq_iff k j,
      v.used j,
      v.used k,
      lookup-erase k j m.entries,
      lookup-erase k j m.factories,
      lookup-erase k j m.usage_counter,
      lookup-insert k j (usage m k - 1) m.usage_counter,
    );
  }

  -- A read that runs the factory keeps the keys.
  has_key-run_factory :
      (k j : Text) (o : Option (W → V × W)) (m : MapAssertable W V) (w : W)
      → lookup k m.factories ≡ o
      → has_key (run_factory k o m w).0 j ≡ has_key m j
  unfolding has_key has run_factory
  has_key-run_factory k j none m w e = refl
  has_key-run_factory k j (some f) m w e =
      ground
        (arith, text_eq_iff k j, lookup-insert k j (f w).0 m.entries, lookup-erase k j m.factories)

  usage-run_factory :
      (k j : Text) (o : Option (W → V × W)) (m : MapAssertable W V) (w : W)
      → usage (run_factory k o m w).0 j ≡ usage m j
  unfolding usage run_factory
  usage-run_factory k j none m w = refl
  usage-run_factory k j (some f) m w = refl

  pub get-IsCounted :
      (k : Text) (m : MapAssertable W V) (w : W) → IsCounted m → IsCounted (get k m w).1.0
  unfolding get
  get-IsCounted k m w v = record {
    used = λ j.
        rw
          (
            has_key-run_factory k j (lookup k m.factories) m w refl,
            usage-run_factory k j (lookup k m.factories) m w,
          )
          (v.used j);
  }

  pub set_lazy-IsCounted :
      (k : Text) (factory : W → V × W) (m : MapAssertable W V)
      → 0 < usage m k
      → IsCounted m
      → IsCounted (set_lazy k factory m)
  unfolding set_lazy has_key usage has
  set_lazy-IsCounted k factory m pos v = record {
    used = λ j. ground (
      arith,
      text_eq_iff k j,
      v.used j,
      lookup-erase k j m.entries,
      lookup-erase k j m.factories,
      lookup-insert k j factory (erase k m.factories),
    );
  }

  make_entry-IsCounted :
      (b : Bool) (k : Text) (factory : W → V × W) (m : MapAssertable W V) (w : W)
      → has_key m k ≡ b
      → IsCounted m
      → let m' = (make_entry b k factory m w).0 in
        IsCounted (record m' { usage_counter = insert k (usage m' k + 1) m'.usage_counter })
  unfolding make_entry has_key usage has
  make_entry-IsCounted true k factory m w e v = record {
    used = λ j.
        ground
          (arith, text_eq_iff k j, v.used j, e, lookup-insert k j (usage m k + 1) m.usage_counter);
  }
  make_entry-IsCounted false k factory m w e v = record {
    used = λ j. ground (
      arith,
      text_eq_iff k j,
      v.used j,
      lookup-insert k j (usage m k + 1) m.usage_counter,
      lookup-insert k j (factory w).0 m.entries,
    );
  }

  pub assert-IsCounted :
      (k : Text) (factory : W → V × W) (m : MapAssertable W V) (w : W)
      → IsCounted m
      → IsCounted (assert k factory m w).1.0
  unfolding assert
  assert-IsCounted k factory m w v =
      get-IsCounted k _ _ (make_entry-IsCounted (has_key m k) k factory m w refl v)

  -- What each operation does to the number of users of a key.
  pub usage-get : (k j : Text) (m : MapAssertable W V) (w : W) → usage (get k m w).1.0 j ≡ usage m j
  unfolding get
  usage-get k j m w = usage-run_factory k j (lookup k m.factories) m w

  pub usage-set_lazy :
      (k j : Text) (factory : W → V × W) (m : MapAssertable W V)
      → usage (set_lazy k factory m) j ≡ usage m j
  unfolding set_lazy usage
  usage-set_lazy k j factory m = refl

  pub usage-set : (k j : Text) (v : V) (m : MapAssertable W V) → usage (set k v m) j ≡ usage m j
  unfolding set usage
  usage-set k j v m = refl

  pub set-IsCounted :
      (k : Text) (x : V) (m : MapAssertable W V)
      → 0 < usage m k
      → IsCounted m
      → IsCounted (set k x m)
  unfolding set has_key usage has
  set-IsCounted k x m pos v = record {
    used = λ j. ground (arith, text_eq_iff k j, v.used j, lookup-insert k j x m.entries);
  }

  usage-make_entry :
      (b : Bool) (k j : Text) (factory : W → V × W) (m : MapAssertable W V) (w : W)
      → usage (make_entry b k factory m w).0 j ≡ usage m j
  unfolding make_entry usage
  usage-make_entry true k j factory m w = refl
  usage-make_entry false k j factory m w = refl

  pub usage-assert :
      (k j : Text) (factory : W → V × W) (m : MapAssertable W V) (w : W)
      → usage (assert k factory m w).1.0 j ≡ (if text_eq k j then usage m k + 1 else usage m j)
  unfolding assert
  usage-assert k j factory m w =
      let m' = (make_entry (has_key m k) k factory m w).0 in
      usage-get k j (record m' { usage_counter = insert k (usage m' k + 1) m'.usage_counter }) _
      ∙ raised m'
      ∙ rw (
        usage-make_entry (has_key m k) k k factory m w,
        usage-make_entry (has_key m k) k j factory m w,
      )
    where
      raised :
          (n : MapAssertable W V)
          → usage (record n { usage_counter = insert k (usage n k + 1) n.usage_counter }) j
            ≡ (if text_eq k j then usage n k + 1 else usage n j)
      raised n = unfold usage in ground (arith, lookup-insert k j (usage n k + 1) n.usage_counter)

  pub usage-release :
      (k j : Text) (m : MapAssertable W V)
      → usage (release k m) j ≡ (if text_eq k j then usage m k - 1 else usage m j)
  unfolding release usage
  usage-release k j m =
      ground
        (arith, lookup-insert k j (usage m k - 1) m.usage_counter, lookup-erase k j m.usage_counter)
