-- ===== src/Sqlite/EventStorage/SagaStreams.antt =====
-- The stream of a saga in src/sqlite/SqliteEventStorage.ts: which rows it has.
use node_cqrs.Common.{
  ℕ, ◌≤◌, ◌<◌, suc, ◌≡◌, ◌≢◌, refl, sym, ap, ◌∙◌, subst, true, false, some, Text, text_eq_refl,
  text_eq_sound, Bool, Bool-cases, inl, inr, List, [], ◌∷◌, ◌++◌, arith, Assoc, truthy, lookup,
  append-nil,
}
use node_cqrs.Common.Lists.{
  filter, filter-append, filter-none, filter-same, All, All-impl, All-right, Pairwise,
  Pairwise-left, Pairwise-before, Pairwise-after,
}
use node_cqrs.Messages.{Event, ok}
use node_cqrs.Utils.SagaId.{parse_saga_id}
use node_cqrs.Sqlite.EventStorage.{EventRow, SagaRefRow, Tables, Codec, find_row, has_row_id}
use node_cqrs.Sqlite.EventStorage.Queries.{
  get_saga_events, of_saga, refers, reconstructed, row_or_missing,
}
use node_cqrs.Sqlite.EventStorage.Committing.{AreApart, AreNumbered, IsWellFormed}

find_row-append :
    (id : Text) (xs : List EventRow) (r : EventRow) (ys : List EventRow)
    → All (λ x. has_row_id id x ≡ false) xs
    → has_row_id id r ≡ true
    → find_row id (xs ++ r ∷ ys) ≡ some r
unfolding find_row
find_row-append id [] r ys before own = rw own refl
find_row-append id (x ∷ xs) r ys before own =
    rw (before.0) (find_row-append id xs r ys before.1 own)

other_id : (r s : EventRow) → r.id ≢ s.id → has_row_id s.id r ≡ false
other_id r s h = elim (Bool-cases (has_row_id s.id r)) [
  | inl e ↦ absurd (h (text_eq_sound r.id s.id e))
  | inr e ↦ e
]

find_row-own :
    (xs : List EventRow) (r : EventRow) (ys : List EventRow)
    → Pairwise AreApart (xs ++ r ∷ ys)
    → find_row r.id (xs ++ r ∷ ys) ≡ some r
find_row-own xs r ys apart =
    find_row-append r.id xs r ys
      (All-impl (λ x. AreApart x r) (λ x. has_row_id r.id x ≡ false) xs
        (λ x other. other_id x r other.0) (Pairwise-before AreApart xs r ys apart))
      (text_eq_refl r.id)

find_row-left :
    (id : Text) (r : EventRow) (rows more : List EventRow)
    → find_row id rows ≡ some r
    → find_row id (rows ++ more) ≡ some r
unfolding find_row
find_row-left id r [] more h = absurd (cc h)
find_row-left id r (x ∷ rows) more h = elim (Bool-cases (has_row_id id x)) [
  | inl e ↦ ground arith
  | inr e ↦ rw e (find_row-left id r rows more (ground arith))
]

AreNumbered-below :
    (n : ℕ) (xs : List EventRow) (r : EventRow) (ys : List EventRow)
    → AreNumbered n (xs ++ r ∷ ys)
    → All (λ x. x.rowid < r.rowid) xs × (n ≤ r.rowid)
AreNumbered-below n [] r ys h = (tt, omega (arith, h.0))
AreNumbered-below n (x ∷ xs) r ys h =
    let (below, least) = AreNumbered-below (suc n) xs r ys h.1 in
    ((omega (arith, h.0), below), omega arith)

AreNumbered-above :
    (n : ℕ) (rows : List EventRow) → AreNumbered n rows → All (λ r. n ≤ r.rowid) rows
AreNumbered-above n [] h = tt
AreNumbered-above n (r ∷ rows) h = (
  omega (arith, h.0),
  All-impl (λ s. suc n ≤ s.rowid) (λ s. n ≤ s.rowid) rows (λ s le. omega arith)
      (AreNumbered-above (suc n) rows h.1),
)

AreNumbered-left : (n : ℕ) (xs ys : List EventRow) → AreNumbered n (xs ++ ys) → AreNumbered n xs
AreNumbered-left n [] ys h = tt
AreNumbered-left n (x ∷ xs) ys h = (h.0, AreNumbered-left (suc n) xs ys h.1)

AreNumbered-from :
    (n : ℕ) (xs : List EventRow) (r : EventRow) (ys : List EventRow)
    → AreNumbered n (xs ++ r ∷ ys)
    → All (λ y. r.rowid < y.rowid) ys
AreNumbered-from n [] r ys h =
    All-impl (λ s. suc n ≤ s.rowid) (λ s. r.rowid < s.rowid) ys (λ s le. omega (arith, h.0))
      (AreNumbered-above (suc n) ys h.1)
AreNumbered-from n (x ∷ xs) r ys h = AreNumbered-from (suc n) xs r ys h.1

module _ (refs : List SagaRefRow) (d : Text) (first before : EventRow) where
  abbrev chosen : EventRow → Bool
  chosen = of_saga refs d first.id first.rowid before.rowid

  chosen-early : (r : EventRow) → r.rowid < first.rowid → chosen r ≡ false
  unfolding of_saga
  chosen-early r h = ground arith

  chosen-late : (r : EventRow) → before.rowid ≤ r.rowid → chosen r ≡ false
  unfolding of_saga
  chosen-late r h = ground arith

  chosen-first : first.rowid < before.rowid → chosen first ≡ true
  unfolding of_saga
  chosen-first h = ground (arith, text_eq_refl first.id)

  chosen-between :
      (r : EventRow)
      → first.rowid < r.rowid
      → r.rowid < before.rowid
      → has_row_id first.id r ≡ false
      → chosen r ≡ refers refs d first.id r
  unfolding of_saga
  chosen-between r lo hi other = ground arith

  chosen_rows :
      (xs ys zs : List EventRow)
      → Pairwise AreApart (xs ++ first ∷ ys ++ before ∷ zs)
      → AreNumbered 1 (xs ++ first ∷ ys ++ before ∷ zs)
      → filter chosen (xs ++ first ∷ ys ++ before ∷ zs) ≡ first ∷ filter (refers refs d first.id) ys
  unfolding filter
  chosen_rows xs ys zs apart numbered =
      let left = xs ++ first ∷ ys in
      let early = AreNumbered-below 1 left before zs numbered in
      let late = AreNumbered-from 1 left before zs numbered in
      let left_numbered = AreNumbered-left 1 left (before ∷ zs) numbered in
      let left_apart = Pairwise-left AreApart left (before ∷ zs) apart in
      let inner = All-right (λ x. x.rowid < before.rowid) xs (first ∷ ys) early.0 in
      let start = filter-none chosen xs (
        All-impl (λ x. x.rowid < first.rowid) (λ x. chosen x ≡ false) xs (λ x lt. chosen-early x lt)
          (AreNumbered-below 1 xs first ys left_numbered).0) in
      let end = filter-none chosen (before ∷ zs) (
        chosen-late before (omega arith),
        All-impl (λ z. before.rowid < z.rowid) (λ z. chosen z ≡ false) zs
            (λ z lt. chosen-late z (omega arith)) late,
      ) in
      let middle = filter-same chosen (refers refs d first.id) ys (
        All-zip3 ys (AreNumbered-from 1 xs first ys left_numbered) inner.1
          (Pairwise-after AreApart xs first ys left_apart)) in
      filter-append chosen left (before ∷ zs)
      ∙ (ap (λ l. filter chosen left ++ l) end
          ∙ (append-nil (filter chosen left)
              ∙ (filter-append chosen xs (first ∷ ys)
                  ∙ (ap (λ l. l ++ filter chosen (first ∷ ys)) start
                      ∙ (filter-first ys (chosen-first inner.0) ∙ ap (λ l. first ∷ l) middle)))))
    where
      All-zip3 :
          (rows : List EventRow)
          → All (λ y. first.rowid < y.rowid) rows
          → All (λ y. y.rowid < before.rowid) rows
          → All (AreApart first) rows
          → All (λ y. chosen y ≡ refers refs d first.id y) rows
      All-zip3 [] lo hi other = tt
      All-zip3 (y ∷ rows) lo hi other = (
        chosen-between y lo.0 hi.0 (other_id y first (λ e. other.0.0 (sym e))),
        All-zip3 rows lo.1 hi.1 other.1,
      )

      filter-first :
          (rows : List EventRow)
          → chosen first ≡ true
          → filter chosen (first ∷ rows) ≡ first ∷ filter chosen rows
      filter-first rows yes_first = rw yes_first refl

module _ {A : Type 0} (c : Codec A) where
  -- The stream of a saga before an event: the event that started the saga, whether it refers to the saga or not, and then, of
  -- what was stored after it and before the given event, that which refers to the saga, in the order of
  -- storage. This holds if the tables are in order, the saga's identifier is taken apart into a descriptor and the
  -- identifier of the event that started it, the given event has an identifier and that origin, and both are stored, the start first.
  pub get_saga_events-first :
      (saga_id d origin before_id : Text) (origins : Assoc Text) (t : Tables)
      (xs ys zs : List EventRow) (first last : EventRow) (before : Event A)
      → IsWellFormed t
      → parse_saga_id saga_id ≡ ok (d, origin)
      → t.tbl_events ≡ xs ++ first ∷ ys ++ last ∷ zs
      → first.id ≡ c.guid origin
      → last.id ≡ c.guid before_id
      → before.id ≡ some before_id
      → truthy before_id ≡ true
      → before.saga_origins ≡ some origins
      → lookup d origins ≡ some origin
      → get_saga_events c saga_id before t
        ≡ ok (reconstructed c t (first ∷ filter (refers t.tbl_event_sagas d (c.guid origin)) ys))
  unfolding get_saga_events row_or_missing
  get_saga_events-first saga_id d origin before_id origins t xs ys zs first last before wf parsed
        stored own_first own_last given named has own =
      let left = xs ++ first ∷ ys in
      let rows = left ++ last ∷ zs in
      let apart = subst (Pairwise AreApart) stored wf.apart in
      let numbered = subst (AreNumbered 1) stored wf.numbered in
      let start : find_row (c.guid origin) t.tbl_events ≡ some first =
        subst (λ (id : Text). find_row id t.tbl_events ≡ some first) own_first
          (subst (λ (l : List EventRow). find_row first.id l ≡ some first) (sym stored)
            (find_row-left first.id first left (last ∷ zs)
              (find_row-own xs first ys (Pairwise-left AreApart left (last ∷ zs) apart)))) in
      let end : find_row (c.guid before_id) t.tbl_events ≡ some last =
        subst (λ (id : Text). find_row id t.tbl_events ≡ some last) own_last
          (subst (λ (l : List EventRow). find_row last.id l ≡ some last) (sym stored)
            (find_row-own left last zs apart)) in
      let chosen_all : filter (of_saga t.tbl_event_sagas d (c.guid origin) first.rowid last.rowid)
            t.tbl_events
          ≡ first ∷ filter (refers t.tbl_event_sagas d (c.guid origin)) ys =
        subst
          (λ (id : Text).
            filter (of_saga t.tbl_event_sagas d id first.rowid last.rowid) t.tbl_events
            ≡ first ∷ filter (refers t.tbl_event_sagas d id) ys)
          own_first
          (ap (filter (of_saga t.tbl_event_sagas d first.id first.rowid last.rowid)) stored
            ∙ chosen_rows t.tbl_event_sagas d first last xs ys zs apart numbered) in
      rw (given, named, parsed, has, own, text_eq_refl origin, start, end, chosen_all) refl
