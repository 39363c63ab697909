-- ===== src/Mongo/EventStorage/Atomicity.antt =====
-- A commit of src/mongodb/MongoEventStorage.ts while no other client writes: all of the batch or nothing.
use node_cqrs.Common.{
  ◌≡◌, refl, sym, ap, ◌∙◌, subst, ℕ, Bool, true, false, not, Bool-cases, inl, inr, ◌⊎◌, List, [],
  ◌∷◌, ◌++◌, append_assoc, append-nil, arith, ◌==◌, if◌then◌else◌,
}
use node_cqrs.Common.Lists.{
  filter, filter-append, filter-none, any, any-All, All, All-left, All-append, All-impl, All-zip,
}
use node_cqrs.Messages.{Event, Result, ok, err, concurrency_error, ◌>>=◌}
use node_cqrs.Mongo.EventStorage.Queries.{
  to_event_documents, with_ids, commit_documents, commit_events,
}
use node_cqrs.Mongo.EventStorage.{
  ObjectIds, EventDocument, is_duplicate, has_id, delete_many, insert_all,
}

filter-All : {X : Type 0} (p : X → Bool) (xs : List X) → All (λ x. p x ≡ true) xs → filter p xs ≡ xs
unfolding filter
filter-All p [] h = refl
filter-All p (x ∷ xs) h = ground (arith, h.0, filter-All p xs h.1)

module _ {A : Type 0} where
  delete_many-inserted :
      (ids : List ℕ) (base added : List (EventDocument A))
      → All (λ d. has_id ids d ≡ false) base
      → All (λ d. has_id ids d ≡ true) added
      → delete_many ids (base ++ added) ≡ base
  unfolding delete_many
  delete_many-inserted ids base added outside inside =
      let p : EventDocument A → Bool = λ d. not (has_id ids d) in
      filter-append p base added
      ∙ (ap (λ l. filter p base ++ l)
            (filter-none p added (
              All-impl (λ d. has_id ids d ≡ true) (λ d. p d ≡ false) added (λ d h. ap not h)
                inside))
          ∙ (append-nil (filter p base)
              ∙ filter-All p base (
                  All-impl (λ d. has_id ids d ≡ false) (λ d. p d ≡ true) base (λ d h. ap not h)
                    outside)))

  not_duplicate-other : (d e : EventDocument A) → is_duplicate d e ≡ false → (d.id == e.id) ≡ false
  unfolding is_duplicate
  not_duplicate-other d e h = ground arith

  has_id-more :
      (ids : List ℕ) (i : ℕ) (d : EventDocument A) → has_id ids d ≡ true → has_id (i ∷ ids) d ≡ true
  unfolding any
  has_id-more ids i d h = ground arith

  has_id-still :
      (ids : List ℕ) (i : ℕ) (d : EventDocument A)
      → has_id ids d ≡ false
      → (i == d.id) ≡ false
      → has_id (i ∷ ids) d ≡ false
  unfolding any
  has_id-still ids i d h other = ground arith

  has_id-own : (ids : List ℕ) (d : EventDocument A) → has_id (d.id ∷ ids) d ≡ true
  unfolding any
  has_id-own ids d = ground arith

  insert_all-duplicate :
      (d : EventDocument A) (ds : List (EventDocument A)) (ids : List ℕ)
      (docs : List (EventDocument A))
      → any (is_duplicate d) docs ≡ true
      → insert_all (d ∷ ds) ids docs ≡ (err concurrency_error, delete_many ids docs)
  unfolding insert_all
  insert_all-duplicate d ds ids docs h = rw h refl

  insert_all-new :
      (d : EventDocument A) (ds : List (EventDocument A)) (ids : List ℕ)
      (docs : List (EventDocument A))
      → any (is_duplicate d) docs ≡ false
      → insert_all (d ∷ ds) ids docs ≡ insert_all ds (d.id ∷ ids) (docs ++ d ∷ [])
  unfolding insert_all
  insert_all-new d ds ids docs h = rw h refl

  -- No document of the batch is a duplicate of one that is there or of an earlier one of the batch.
  unfoldable pub fits : List (EventDocument A) → List (EventDocument A) → Bool
  fits [] docs = true
  fits (d ∷ ds) docs =
      let rest = fits ds (docs ++ d ∷ []) in if any (is_duplicate d) docs then false else rest

  fits-duplicate :
      (d : EventDocument A) (ds docs : List (EventDocument A))
      → any (is_duplicate d) docs ≡ true
      → fits (d ∷ ds) docs ≡ false
  unfolding fits
  fits-duplicate d ds docs h = rw h refl

  fits-new :
      (d : EventDocument A) (ds docs : List (EventDocument A))
      → any (is_duplicate d) docs ≡ false
      → fits (d ∷ ds) docs ≡ fits ds (docs ++ d ∷ [])
  unfolding fits
  fits-new d ds docs h = rw h refl

  abbrev Outcome :
      Bool
      → List (EventDocument A)
      → List (EventDocument A)
      → Result (Unit {0}) × List (EventDocument A)
      → Type 0
  Outcome fitting stored base p =
      ((fitting ≡ true) × (p ≡ (ok tt, stored)))
      ⊎ ((fitting ≡ false) × (p ≡ (err concurrency_error, base)))

  insert_all-Outcome :
      (ds : List (EventDocument A)) (ids : List ℕ) (base added : List (EventDocument A))
      → All (λ d. has_id ids d ≡ false) base
      → All (λ d. has_id ids d ≡ true) added
      → Outcome
          (fits ds (base ++ added))
          ((base ++ added) ++ ds)
          base
          (insert_all ds ids (base ++ added))
  unfolding insert_all fits
  insert_all-Outcome [] ids base added outside inside =
      inl (refl, ap (λ l. (ok tt, l)) (sym (append-nil (base ++ added))))
  insert_all-Outcome (d ∷ ds) ids base added outside inside =
      elim (Bool-cases (any (is_duplicate d) (base ++ added))) [
        | inl taken ↦ inr (
          fits-duplicate d ds (base ++ added) taken,
          insert_all-duplicate d ds ids (base ++ added) taken
              ∙ ap (λ l. (err concurrency_error, l))
                  (delete_many-inserted ids base added outside inside),
        )
        | inr fresh ↦
            let free =
              All-left (λ e. is_duplicate d e ≡ false) base added
                (any-All (is_duplicate d) (base ++ added) fresh) in
            let outside' =
              All-zip (λ e. has_id ids e ≡ false) (λ e. is_duplicate d e ≡ false)
                (λ e. has_id (d.id ∷ ids) e ≡ false) base
                (λ e not_in new. has_id-still ids d.id e not_in (not_duplicate-other d e new))
                outside free in
            let inside' =
              All-append (λ e. has_id (d.id ∷ ids) e ≡ true) added (d ∷ [])
                (All-impl (λ e. has_id ids e ≡ true) (λ e. has_id (d.id ∷ ids) e ≡ true) added
                  (λ e own. has_id-more ids d.id e own) inside)
                (has_id-own ids d, tt) in
            let same = append_assoc base added (d ∷ []) in
            Outcome-along (fits-new d ds (base ++ added) fresh ∙ ap (fits ds) same)
              (sym (ap (λ l. l ++ ds) (sym same) ∙ append_assoc (base ++ added) (d ∷ []) ds))
              (insert_all-new d ds ids (base ++ added) fresh ∙ ap (insert_all ds (d.id ∷ ids)) same)
              (insert_all-Outcome ds (d.id ∷ ids) base (added ++ d ∷ []) outside' inside')
      ]
    where
      Outcome-along :
          {b b' : Bool} {l l' : List (EventDocument A)}
          {p p' : Result (Unit {0}) × List (EventDocument A)}
          → b ≡ b'
          → l ≡ l'
          → p ≡ p'
          → Outcome b' l' base p'
          → Outcome b l base p
      Outcome-along eb el ep outcome =
          subst
            (λ (q : Bool × List (EventDocument A) × (Result (Unit {0}) × List (EventDocument A))).
              Outcome q.0 q.1 base q.2)
            (λ i. (sym eb i, sym el i, sym ep i)) outcome

  commit_documents-ok :
      (ids : ObjectIds) (fresh : ℕ → ℕ) (es : List (Event A)) (ds docs : List (EventDocument A))
      (r : Result (Unit {0})) (after : List (EventDocument A))
      → to_event_documents ids fresh 0 es ≡ ok ds
      → insert_all ds [] docs ≡ (r, after)
      → commit_events ids fresh es false docs ≡ (r >>= (λ done. ok (with_ids ids es ds)), after)
  unfolding commit_events commit_documents
  commit_documents-ok ids fresh es ds docs r after made inserted = rw (made, inserted) refl

  commit_Outcome :
      (ids : ObjectIds) (fresh : ℕ → ℕ) (es : List (Event A)) (ds docs : List (EventDocument A))
      → to_event_documents ids fresh 0 es ≡ ok ds
      → Outcome (fits ds docs) (docs ++ ds) docs (insert_all ds [] docs)
      → ((fits ds docs ≡ true)
          × (commit_events ids fresh es false docs ≡ (ok (with_ids ids es ds), docs ++ ds)))
        ⊎ ((fits ds docs ≡ false)
            × (commit_events ids fresh es false docs ≡ (err concurrency_error, docs)))
  commit_Outcome ids fresh es ds docs made (inl (fitting, done)) =
      inl (fitting, commit_documents-ok ids fresh es ds docs (ok tt) (docs ++ ds) made done)
  commit_Outcome ids fresh es ds docs made (inr (fitting, failed)) =
      inr
        (fitting, commit_documents-ok ids fresh es ds docs (err concurrency_error) docs made failed)

  -- A commit to MongoDB is all or nothing, though it inserts its documents one by one and there is no transaction: if the events of
  -- the batch have identifiers that an ObjectId can be made of, conflicts are not ignored and no other client writes meanwhile,
  -- then either no document is a duplicate of a stored one or of an earlier one in the batch, all are stored after those that were there, and the
  -- events are returned with their identifiers, or one is, the commit fails with a concurrency error and the collection is what it was.
  pub commit_events-atomic :
      (ids : ObjectIds) (fresh : ℕ → ℕ) (es : List (Event A)) (ds docs : List (EventDocument A))
      → to_event_documents ids fresh 0 es ≡ ok ds
      → ((fits ds docs ≡ true)
          × (commit_events ids fresh es false docs ≡ (ok (with_ids ids es ds), docs ++ ds)))
        ⊎ ((fits ds docs ≡ false)
            × (commit_events ids fresh es false docs ≡ (err concurrency_error, docs)))
  unfolding any
  commit_events-atomic ids fresh es ds docs made = commit_Outcome ids fresh es ds docs made (
      subst
        (λ (l : List (EventDocument A)). Outcome (fits ds l) (l ++ ds) docs (insert_all ds [] l))
        (append-nil docs) (insert_all-Outcome ds [] docs [] (none_yet docs) tt))
    where
      none_yet : (l : List (EventDocument A)) → All (λ d. has_id [] d ≡ false) l
      none_yet [] = tt
      none_yet (d ∷ l) = (refl, none_yet l)
