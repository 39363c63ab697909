-- ===== src/Sqlite/EventStorage/Committing.antt =====
-- What `commitEvents` of src/sqlite/SqliteEventStorage.ts keeps: the primary keys, the row numbers, the references
-- to events, and one event for each version of an aggregate.
use node_cqrs.Common.{
  ℕ, ◌+◌, suc, ◌≡◌, ◌≢◌, refl, sym, ap, ◌∙◌, subst, true, false, Option, none, some, Text,
  text_eq_refl, truthy, Bool, Bool-cases, inl, inr, List, [], ◌∷◌, ◌++◌, arith, truthy_of_ne,
}
use node_cqrs.Common.Lists.{
  any, length, All, All-of, All-zip, All-impl, Pairwise, Pairwise-append_one, any-All,
}
use node_cqrs.Messages.{Event, Result, ok, err, Error, guard, ◌>>=◌}
use node_cqrs.Sqlite.EventStorage.{
  EventRow, Tables, Codec, has_row_id, has_version, conflicts, conflicts_at, event_row,
  optional_guid, insert_event,
}

pub bind_ok :
    {X Y : Type 0} (r : Result X) (f : X → Result Y) (y : Y)
    → (r >>= f) ≡ ok y
    → (x : X) × (r ≡ ok x) × (f x ≡ ok y)
bind_ok (ok x) f y h = (x, refl, h)
bind_ok (err e) f y h = absurd (cc h)

pub guard_ok : (b : Bool) (e : Error) (u : Unit {0}) → guard b e ≡ ok u → b ≡ true
guard_ok true e u h = refl
guard_ok false e u h = absurd (cc h)

-- Both rows are of one aggregate, at one version.
pub record SameVersion (r s : EventRow) : Type 0 where
  pub aggregate : Text
  pub version : ℕ
  pub left_id : r.aggregate_id ≡ some aggregate
  pub right_id : s.aggregate_id ≡ some aggregate
  pub left_version : r.aggregate_version ≡ some version
  pub right_version : s.aggregate_version ≡ some version

abbrev pub AreApart : EventRow → EventRow → Type 0
AreApart r s = (r.id ≢ s.id) × (¬ SameVersion r s)

-- The rows are numbered one after another.
abbrev pub AreNumbered : ℕ → List EventRow → Type 0
AreNumbered n [] = Unit
AreNumbered n (r ∷ rows) = (r.rowid ≡ n) × AreNumbered (suc n) rows

-- A reference names an event that is stored.
abbrev pub IsStored : List EventRow → Text → Type 0
IsStored rows id = any (has_row_id id) rows ≡ true

pub record IsWellFormed (t : Tables) : Type 0 where
  pub apart : Pairwise AreApart t.tbl_events
  pub numbered : AreNumbered 1 t.tbl_events
  pub referred : All (λ ref. IsStored t.tbl_events ref.event_id) t.tbl_event_sagas

AreNumbered-append_one :
    (n : ℕ) (rows : List EventRow) (r : EventRow)
    → AreNumbered n rows
    → r.rowid ≡ length rows + n
    → AreNumbered n (rows ++ r ∷ [])
AreNumbered-append_one n [] r numbered h = (omega (arith, h), tt)
AreNumbered-append_one n (s ∷ rows) r numbered h =
    (numbered.0, AreNumbered-append_one (suc n) rows r numbered.1 (omega (arith, h)))

IsStored-append :
    (rows more : List EventRow) (id : Text) → IsStored rows id → IsStored (rows ++ more) id
unfolding any
IsStored-append [] more id h = absurd (cc h)
IsStored-append (r ∷ rows) more id h = elim (Bool-cases (has_row_id id r)) [
  | inl e ↦ rw e refl
  | inr e ↦ rw e (IsStored-append rows more id (ground arith))
]

IsStored-last : (rows : List EventRow) (r : EventRow) → IsStored (rows ++ r ∷ []) r.id
unfolding any
IsStored-last [] r = rw (text_eq_refl r.id) refl
IsStored-last (s ∷ rows) r = ground (arith, IsStored-last rows r)

has_version-apart :
    (id : Text) (version : ℕ) (r new : EventRow)
    → new.aggregate_id ≡ some id
    → new.aggregate_version ≡ some version
    → has_version id version r ≡ false
    → ¬ SameVersion r new
unfolding has_version
has_version-apart id version r new own at free s =
    let same : s.aggregate ≡ id = ground (arith, s.right_id) in
    let at_same : s.version ≡ version = ground (arith, s.right_version) in
    ground (arith, s.left_id, s.left_version, text_eq_refl id)

has_row_id-apart : (r new : EventRow) → has_row_id new.id r ≡ false → r.id ≢ new.id
has_row_id-apart r new h e = ground (arith, text_eq_refl new.id)

module _ {A : Type 0} (c : Codec A) where
  ok_result : Tables → Result Tables → Tables
  ok_result t (ok u) = u
  ok_result t (err x) = t

  insert_event_ok :
      (id : Text) (meta : Option Text) (e : Event A) (t u : Tables)
      → insert_event c id meta e t ≡ ok u
      → (any (has_row_id (c.guid id)) t.tbl_events ≡ false)
        × (record t { tbl_events = t.tbl_events ++ event_row c id meta e t.tbl_events ∷ [] } ≡ u)
  unfolding insert_event ok_result
  insert_event_ok id meta e t u h = elim (Bool-cases (any (has_row_id (c.guid id)) t.tbl_events)) [
    | inl there ↦ absurd (cc (taken there, h))
    | inr absent ↦ (absent, ap (ok_result t) (sym (stored absent) ∙ h))
  ]
    where
      taken :
          any (has_row_id (c.guid id)) t.tbl_events ≡ true
          → insert_event c id meta e t ≡ err (Error.thrown 19)
      taken there = rw there refl

      stored :
          any (has_row_id (c.guid id)) t.tbl_events ≡ false
          → insert_event c id meta e t
            ≡ ok (record t { tbl_events = t.tbl_events ++ event_row c id meta e t.tbl_events ∷ [] })
      stored absent = rw absent refl

  conflicts_at-apart :
      (i : Option Text) (n : Option ℕ) (rows : List EventRow) (new : EventRow)
      → conflicts_at c i n rows ≡ false
      → i ≢ some []
      → new.aggregate_id ≡ optional_guid c i
      → new.aggregate_version ≡ n
      → All (λ r. ¬ SameVersion r new) rows
  unfolding conflicts_at
  conflicts_at-apart none n rows new h named own at =
      All-of (λ r. ¬ SameVersion r new) rows (λ r s. ground (arith, s.right_id))
  conflicts_at-apart (some id) none rows new h named own at =
      All-of (λ r. ¬ SameVersion r new) rows (λ r s. ground (arith, s.right_version))
  conflicts_at-apart (some id) (some n) rows new h named own at =
      let is_named : truthy id ≡ true = truthy_of_ne id (λ e. named (ap some e)) in
      All-impl (λ r. has_version (c.guid id) n r ≡ false) (λ r. ¬ SameVersion r new) rows
        (λ r free. has_version-apart (c.guid id) n r new own at free)
        (any-All (has_version (c.guid id) n) rows (ground arith))

  inserted-apart :
      (id : Text) (meta : Option Text) (e : Event A) (t : Tables)
      → conflicts c e t.tbl_events ≡ false
      → e.aggregate_id ≢ some []
      → any (has_row_id (c.guid id)) t.tbl_events ≡ false
      → All (λ r. AreApart r (event_row c id meta e t.tbl_events)) t.tbl_events
  unfolding conflicts
  inserted-apart id meta e t free named absent =
      let new = event_row c id meta e t.tbl_events in
      All-zip (λ r. has_row_id (c.guid id) r ≡ false) (λ r. ¬ SameVersion r new)
        (λ r. AreApart r new) t.tbl_events (λ r other apart. (has_row_id-apart r new other, apart))
        (any-All (has_row_id (c.guid id)) t.tbl_events absent)
        (conflicts_at-apart e.aggregate_id e.aggregate_version t.tbl_events new free named refl
          refl)

  pub insert_event-IsWellFormed :
      (id : Text) (meta : Option Text) (e : Event A) (t u : Tables)
      → conflicts c e t.tbl_events ≡ false
      → e.aggregate_id ≢ some []
      → insert_event c id meta e t ≡ ok u
      → IsWellFormed t
      → IsWellFormed u × IsStored u.tbl_events (c.guid id)
  insert_event-IsWellFormed id meta e t u free named h wf =
      let (absent, is) = insert_event_ok id meta e t u h in
      let new = event_row c id meta e t.tbl_events in
      subst (λ v. IsWellFormed v × IsStored v.tbl_events (c.guid id)) is
        (
          record {
            apart =
                Pairwise-append_one AreApart t.tbl_events new wf.apart
                  (inserted-apart id meta e t free named absent);
            numbered = AreNumbered-append_one 1 t.tbl_events new wf.numbered refl;
            referred =
                All-impl (λ ref. IsStored t.tbl_events ref.event_id)
                  (λ ref. IsStored (t.tbl_events ++ new ∷ []) ref.event_id) t.tbl_event_sagas
                  (λ ref old. IsStored-append t.tbl_events (new ∷ []) ref.event_id old) wf.referred;
          },
          IsStored-last t.tbl_events new,
        )
