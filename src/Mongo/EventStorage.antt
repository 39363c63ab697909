-- ===== src/Mongo/EventStorage.antt =====
-- src/mongodb/MongoEventStorage.ts, with the connection open. The collection is the list of its documents; a query chooses by its filter
-- and sorts by one field. An ObjectId is a number: its order is that of the identifiers.
pub mod Atomicity
pub mod Queries
use node_cqrs.Common.{
  ℕ, Bool, true, false, not, ◌&&◌, ◌||◌, Option, none, some, List, [], ◌∷◌, ◌++◌, Text, text_eq,
  truthy, present, map, lookup, passes, ◌==◌, ltb, leb, if◌then◌else◌, or_else,
}
use node_cqrs.Common.Lists.{filter, any, length, last?}
use node_cqrs.Messages.{
  Event, Batch, Result, ok, err, Error, concurrency_error, type_error, plain_error, thrown, guard,
  ◌>>=◌, ◌>>◌,
}
use node_cqrs.InMemory.EventStorage.{Query, includes}
use node_cqrs.Utils.SagaId.{parse_saga_id}

-- `new ObjectId(text)`, which throws on a text of another form, and `toHexString`.
pub record ObjectIds : Type 0 where
  pub parse : Text → Option ℕ
  pub to_hex : ℕ → Text

-- What `new ObjectId(text)` throws.
abbrev pub bson_error : Error
bson_error = thrown 1

-- `ObjectId | string`
pub data AggregateKey : Type 0 where
  object_id : ℕ → AggregateKey
  plain_text : Text → AggregateKey

-- `EventDocument`: `rest` has the fields of the event but its identifiers.
pub record EventDocument (A : Type 0) : Type 0 where
  pub id : ℕ
  pub aggregate_key : Option AggregateKey
  pub rest : Event A

unfoldable pub same_key : AggregateKey → AggregateKey → Bool
same_key (object_id m) (object_id n) = m == n
same_key (object_id m) (plain_text t) = false
same_key (plain_text s) (object_id n) = false
same_key (plain_text s) (plain_text t) = text_eq s t

unfoldable pub same_optional : {B : Type 0} → (B → B → Bool) → Option B → Option B → Bool
same_optional same none none = true
same_optional same none (some b) = false
same_optional same (some a) none = false
same_optional same (some a) (some b) = same a b

-- `/^[0-9a-f]{24}$/i`
unfoldable pub is_hex_digit : ℕ → Bool
is_hex_digit c =
    (leb b'0' c && leb c b'9') || (leb b'a' c && leb c b'f') || (leb b'A' c && leb c b'F')

unfoldable pub is_hex_object_id : Text → Bool
is_hex_object_id s = (length s == 24) && not (any (λ c. not (is_hex_digit c)) s)

-- A missing field comes first.
abbrev pub earlier : Option ℕ → Option ℕ → Bool
earlier none none = false
earlier none (some n) = true
earlier (some m) none = false
earlier (some m) (some n) = ltb m n

-- An empty list of types is no filter.
abbrev pub type_filter : Option (List Text) → Option (List Text)
type_filter none = none
type_filter (some []) = none
type_filter (some (t ∷ types)) = some (t ∷ types)

-- `...snapshotVersion && { … }`: version 0 is falsy.
abbrev pub truthy_version : Option ℕ → Option ℕ
truthy_version none = none
truthy_version (some v) = if v == 0 then none else some v

module _ {A : Type 0} where
  -- The unique, sparse index on the aggregate and its version: a document with neither field is not in it.
  unfoldable pub same_version : EventDocument A → EventDocument A → Bool
  same_version d e =
      same_optional same_key d.aggregate_key e.aggregate_key
      && same_optional (λ m n. m == n) d.rest.aggregate_version e.rest.aggregate_version
      && not (
          same_optional same_key d.aggregate_key none
          && same_optional (λ m n. m == n) d.rest.aggregate_version none)

  -- `insertOne` fails with code 11000.
  unfoldable pub is_duplicate : EventDocument A → EventDocument A → Bool
  is_duplicate d e = (e.id == d.id) || same_version d e

  abbrev pub has_id : List ℕ → EventDocument A → Bool
  has_id ids d = any (λ i. i == d.id) ids

  -- `deleteMany({ _id: { $in: ids } })`
  unfoldable pub delete_many : List ℕ → List (EventDocument A) → List (EventDocument A)
  delete_many ids docs = filter (λ d. not (has_id ids d)) docs

  -- The loop of `commitEvents`, with the documents that it has inserted, and its `catch`
  unfoldable pub insert_all :
      List (EventDocument A)
      → List ℕ
      → List (EventDocument A)
      → Result (Unit {0}) × List (EventDocument A)
  insert_all [] inserted docs = (ok tt, docs)
  insert_all (d ∷ ds) inserted docs =
      let rest = insert_all ds (d.id ∷ inserted) (docs ++ d ∷ []) in
      if any (is_duplicate d) docs then (err concurrency_error, delete_many inserted docs) else rest

  -- A document in its place among those that a field has sorted already
  unfoldable pub insert_sorted :
      (EventDocument A → EventDocument A → Bool)
      → EventDocument A
      → List (EventDocument A)
      → List (EventDocument A)
  insert_sorted before d [] = d ∷ []
  insert_sorted before d (e ∷ es) =
      let rest = insert_sorted before d es in if before e d then e ∷ rest else d ∷ e ∷ es

  -- `find(filter, { sort })`
  unfoldable pub find :
      (EventDocument A → Bool)
      → (EventDocument A → EventDocument A → Bool)
      → List (EventDocument A)
      → List (EventDocument A)
  find chosen before [] = []
  find chosen before (d ∷ docs) =
      let rest = find chosen before docs in if chosen d then insert_sorted before d rest else rest

  abbrev pub by_id : EventDocument A → EventDocument A → Bool
  by_id d e = ltb d.id e.id

  abbrev pub by_version : EventDocument A → EventDocument A → Bool
  by_version d e = earlier d.rest.aggregate_version e.rest.aggregate_version

  -- `aggregateVersion: { $gt: version }` if there is a version
  unfoldable pub after_version : Option ℕ → EventDocument A → Bool
  after_version none d = true
  after_version (some v) d = passes (λ n. ltb v n) d.rest.aggregate_version

  abbrev pub of_types : Option (List Text) → EventDocument A → Bool
  of_types none d = true
  of_types (some types) d = includes types d.rest.type

  abbrev pub unless_last :
      Option (EventDocument A) → Option (EventDocument A) → List (EventDocument A)
  unless_last tail none = elim tail [ none ↦ [] | some d ↦ d ∷ [] ]
  unless_last none (some last) = []
  unless_last (some d) (some last) = if d.id == last.id then [] else d ∷ []

  -- The tail document, found among those of the aggregate after the snapshot
  unfoldable pub missing_tail :
      (EventDocument A → Bool)
      → Query
      → List (EventDocument A)
      → List (EventDocument A)
      → List (EventDocument A)
  missing_tail of_aggregate q results docs = elim (type_filter q.event_types) [
    | none ↦ []
    | some types ↦
        if q.tail_last
        then unless_last
            (last? (
              find (λ d. of_aggregate d && after_version (truthy_version q.after_version) d)
                by_version docs))
            (last? results)
        else []
  ]
