-- ===== src/InMemory/EventStorage/Versions.antt =====
-- Optimistic concurrency: the versions of an aggregate stay distinct.
use node_cqrs.Common.{
  ℕ, ◌≡◌, refl, passes_text, true, false, Option, none, some, List, [], ◌∷◌, ◌++◌, Text, arith,
  text_eq_refl, passes_text, Bool-cases, inl, inr, ◌⊎◌,
}
use node_cqrs.Common.Lists.{any, All, All-append}
use node_cqrs.Messages.{Event, ok, err, concurrency_error}
use node_cqrs.InMemory.EventStorage.{EventStorage, commit_events, clashes, same_version, clashes_at}

module _ {A : Type 0} where
  -- Both events are of one aggregate, at one version.
  pub record SameVersion (e f : Event A) : Type 0 where
    pub aggregate : Text
    pub version : ℕ
    pub left_id : e.aggregate_id ≡ some aggregate
    pub right_id : f.aggregate_id ≡ some aggregate
    pub left_version : e.aggregate_version ≡ some version
    pub right_version : f.aggregate_version ≡ some version

  -- No event of `fs` has the version of one of `es`.
  abbrev pub AreApart : List (Event A) → List (Event A) → Type 0
  AreApart es fs = All (λ f. All (λ e. ¬ SameVersion e f) es) fs

  -- No two events of the list, at different places, are of one aggregate at one version.
  abbrev pub IsDistinct : List (Event A) → Type 0
  IsDistinct [] = Unit
  IsDistinct (e ∷ es) = All (λ f. ¬ SameVersion e f) es × IsDistinct es

  same_version-SameVersion :
      (e f : Event A) (i : Text) (n : ℕ)
      → f.aggregate_id ≡ some i
      → f.aggregate_version ≡ some n
      → same_version i n e ≡ true
      → SameVersion e f
  unfolding same_version
  same_version-SameVersion e f i n p q h = record {
    aggregate = i;
    version = n;
    left_id = ground (arith, passes_text i e.aggregate_id);
    right_id = p;
    left_version = ground arith;
    right_version = q;
  }

  SameVersion-same_version :
      (e f : Event A) (i : Text) (n : ℕ)
      → f.aggregate_id ≡ some i
      → f.aggregate_version ≡ some n
      → SameVersion e f
      → same_version i n e ≡ true
  unfolding same_version
  SameVersion-same_version e f i n p q s =
      ground (arith, s.left_id, s.right_id, s.left_version, s.right_version, text_eq_refl i)

  clashes_at-AreApart :
      (f : Event A) (es : List (Event A)) (i : Option Text) (n : Option ℕ)
      → f.aggregate_id ≡ i
      → f.aggregate_version ≡ n
      → clashes_at es i n ≡ false
      → All (λ e. ¬ SameVersion e f) es
  unfolding clashes_at any
  clashes_at-AreApart f [] i n p q h = tt
  clashes_at-AreApart f (e ∷ es) (some i) (some n) p q h = (
    λ s. ground (arith, SameVersion-same_version e f i n p q s),
    clashes_at-AreApart f es (some i) (some n) p q (ground arith),
  )
  clashes_at-AreApart f (e ∷ es) (some i) none p q h =
      (λ s. cc (q, s.right_version), clashes_at-AreApart f es (some i) none p q refl)
  clashes_at-AreApart f (e ∷ es) none n p q h =
      (λ s. cc (p, s.right_id), clashes_at-AreApart f es none n p q refl)

  clashes_at-not_apart :
      (f : Event A) (es : List (Event A)) (i : Option Text) (n : Option ℕ)
      → f.aggregate_id ≡ i
      → f.aggregate_version ≡ n
      → clashes_at es i n ≡ true
      → ¬ All (λ e. ¬ SameVersion e f) es
  unfolding clashes_at any
  clashes_at-not_apart f [] (some i) (some n) p q h apart = cc
  clashes_at-not_apart f (e ∷ es) (some i) (some n) p q h apart =
      elim (Bool-cases (same_version i n e)) [
        | inl same ↦ apart.0 (same_version-SameVersion e f i n p q same)
        | inr other ↦ clashes_at-not_apart f es (some i) (some n) p q (ground arith) apart.1
      ]
  clashes_at-not_apart f es (some i) none p q h apart = cc
  clashes_at-not_apart f es none n p q h apart = cc

  any-clashes-AreApart : (es fs : List (Event A)) → any (clashes es) fs ≡ false → AreApart es fs
  unfolding any clashes
  any-clashes-AreApart es [] h = tt
  any-clashes-AreApart es (f ∷ fs) h = (
    clashes_at-AreApart f es f.aggregate_id f.aggregate_version refl refl (ground arith),
    any-clashes-AreApart es fs (ground arith),
  )

  any-clashes-not_apart : (es fs : List (Event A)) → any (clashes es) fs ≡ true → ¬ AreApart es fs
  unfolding any clashes
  any-clashes-not_apart es [] h apart = cc
  any-clashes-not_apart es (f ∷ fs) h apart = elim (Bool-cases (clashes es f)) [
    | inl c ↦ clashes_at-not_apart f es f.aggregate_id f.aggregate_version refl refl c apart.0
    | inr c ↦ any-clashes-not_apart es fs (ground arith) apart.1
  ]

  AreApart-uncons :
      (e : Event A) (es fs : List (Event A))
      → AreApart (e ∷ es) fs
      → All (λ f. ¬ SameVersion e f) fs × AreApart es fs
  AreApart-uncons e es [] h = (tt, tt)
  AreApart-uncons e es (f ∷ fs) h =
      let rest = AreApart-uncons e es fs h.1 in ((h.0.0, rest.0), (h.0.1, rest.1))

  IsDistinct-append :
      (es fs : List (Event A))
      → IsDistinct es
      → IsDistinct fs
      → AreApart es fs
      → IsDistinct (es ++ fs)
  IsDistinct-append [] fs hes hfs apart = hfs
  IsDistinct-append (e ∷ es) fs hes hfs apart =
      let parts = AreApart-uncons e es fs apart in
      (
        All-append (λ f. ¬ SameVersion e f) es fs hes.0 parts.0,
        IsDistinct-append es fs hes.1 hfs parts.1,
      )

  -- A commit that checks versions of a batch with distinct versions, on a storage with distinct
  -- versions: either some stored event has the version of one of the batch, the commit fails with
  -- a concurrency error and the storage is as it was; or none has, the batch is appended in its
  -- order and the versions are still distinct.
  pub commit_outcome :
      (s : EventStorage A) (events : List (Event A))
      → IsDistinct s.events
      → IsDistinct events
      → ((¬ AreApart s.events events) × (commit_events events false s ≡ (err concurrency_error, s)))
        ⊎ (AreApart s.events events
            × (commit_events events false s ≡ (ok events, record s { events = s.events ++ events }))
            × IsDistinct (commit_events events false s).1.events)
  unfolding commit_events
  commit_outcome s events hs he = elim (Bool-cases (any (clashes s.events) events)) [
    | inl clash ↦ inl (any-clashes-not_apart s.events events clash, rw clash)
    | inr free ↦
        let apart = any-clashes-AreApart s.events events free in
        inr (apart, rw free, rw free (IsDistinct-append s.events events hs he apart))
  ]
