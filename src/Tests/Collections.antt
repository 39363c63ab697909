-- ===== src/Tests/Collections.antt =====
-- Collections for MongoDB, small enough to compute with: they have the properties that the documentation promises, and the lockers
-- and the storage work on them.
use node_cqrs.Common.{
  [], ◌∷◌, ℕ, ◌≡◌, refl, true, false, none, some, Text, codes, text_eq, if◌then◌else◌, arith,
  Option, Bool, zero, suc, ◌+◌, or_else, ◌⊎◌,
}
use node_cqrs.Messages.{ok, err, plain_error, concurrency_error}
use node_cqrs.Projection.Once.{IsFaithful}
use node_cqrs.Mongo.{Collection, IsCollection, matching}
use node_cqrs.Mongo.EventLocker as Events
use node_cqrs.Mongo.EventLocker.{ViewLock, EventLock, Database}
use node_cqrs.Mongo.EventLocker.Projecting.{
  IsProcessed, mongo_event_locker, mongo_event_locker-IsFaithful,
}
use node_cqrs.Mongo.ViewLocker as Views
use node_cqrs.Mongo.ViewLocker.{try_lock, prolong_lock, unlock}
use node_cqrs.Mongo.ViewLocker.Holding.{held_against_others}
use node_cqrs.Mongo.ObjectStorage.{Document, update_enforcing_new}
use node_cqrs.Mongo.ObjectStorage.Updates.{calm, deleted, Settled, update_enforcing_new-newest}
use node_cqrs.Mongo.EventStorage.{ObjectIds, EventDocument, plain_text, is_hex_object_id}
use node_cqrs.Mongo.EventStorage.Queries.{
  to_object_id, to_object_id_or_string, to_event_documents, to_event_document, with_ids,
  commit_events,
}
use node_cqrs.Mongo.EventStorage.Atomicity.{fits, commit_events-atomic}
use node_cqrs.Tests.Data.{added}

abbrev Documents : Type 0 → Type 0
Documents D = Text → Option D

abbrev written : {D : Type 0} → Text → Option D → Documents D → Documents D
written k d w j = if text_eq k j then d else w j

abbrev counted : {D : Type 0} → Text → Option D → Documents D → ℕ × Documents D
counted k none w = (0, w)
counted k (some d) w = (1, written k (some d) w)

abbrev matched : {D : Type 0} → Text → Option D → Documents D → Bool × Documents D
matched k none w = (false, w)
matched k (some d) w = (true, written k (some d) w)

abbrev inserted : {D : Type 0} → Text → D → Option D → Documents D → Bool × Documents D
inserted k d none w = (true, written k (some d) w)
inserted k d (some old) w = (false, w)

abbrev upserted : {D : Type 0} → D → (D → D) → Option D → D
upserted d change none = d
upserted d change (some old) = change old

abbrev removed : {D : Type 0} → Option D → ℕ
removed none = 0
removed (some d) = 1

abbrev documents : (D : Type 0) → Collection (Documents D) D
documents D = record {
  find_one = λ k w. w k;
  update_one = λ k change w. counted k (matching change (w k)) w;
  upsert_one = λ k d change w. written k (some (upserted d change (w k))) w;
  find_one_and_update = λ k change w. matched k (matching change (w k)) w;
  insert_one = λ k d w. inserted k d (w k) w;
  delete_one = λ k w. (removed (w k), written k none w);
}

documents-IsCollection : (D : Type 0) → IsCollection (documents D)
documents-IsCollection D = record {
  update_one-matched = λ k change w d d' there gives differs. rw (there, gives) (refl, λ j. refl);
  update_one-unmatched = λ k change w missed. rw missed refl;
  find_one_and_update-matched = λ k change w d found. rw found (refl, λ j. refl);
  find_one_and_update-unmatched = λ k change w missed. rw missed refl;
  insert_one-new = λ k d w missing. rw missing (refl, λ j. refl);
  insert_one-duplicate = λ k d old w there. rw there refl;
}

-- A server with a clock and both collections.
record Store : Type 0 where
  clock : ℕ
  events : Documents EventLock
  views : Documents ViewLock

abbrev events_in : Collection Store EventLock
events_in =
    let c = documents EventLock in
    record {
      find_one = λ k w. w.events k;
      update_one =
          λ k f w. let (n, after) = c.update_one k f w.events in (n, record w { events = after });
      upsert_one = λ k d f w. record w { events = c.upsert_one k d f w.events };
      find_one_and_update = λ k f w.
          let (b, after) = c.find_one_and_update k f w.events in (b, record w { events = after });
      insert_one =
          λ k d w. let (b, after) = c.insert_one k d w.events in (b, record w { events = after });
      delete_one =
          λ k w. let (n, after) = c.delete_one k w.events in (n, record w { events = after });
    }

abbrev views_in : Collection Store ViewLock
views_in =
    let c = documents ViewLock in
    record {
      find_one = λ k w. w.views k;
      update_one =
          λ k f w. let (n, after) = c.update_one k f w.views in (n, record w { views = after });
      upsert_one = λ k d f w. record w { views = c.upsert_one k d f w.views };
      find_one_and_update = λ k f w.
          let (b, after) = c.find_one_and_update k f w.views in (b, record w { views = after });
      insert_one =
          λ k d w. let (b, after) = c.insert_one k d w.views in (b, record w { views = after });
      delete_one =
          λ k w. let (n, after) = c.delete_one k w.views in (n, record w { views = after });
    }

events_in-IsCollection : IsCollection events_in
events_in-IsCollection = record {
  update_one-matched = λ k change w d d' there gives differs. rw (there, gives) (refl, λ j. refl);
  update_one-unmatched = λ k change w missed. rw missed refl;
  find_one_and_update-matched = λ k change w d found. rw found (refl, λ j. refl);
  find_one_and_update-unmatched = λ k change w missed. rw missed refl;
  insert_one-new = λ k d w missing. rw missing (refl, λ j. refl);
  insert_one-duplicate = λ k d old w there. rw there refl;
}

views_in-IsCollection : IsCollection views_in
views_in-IsCollection = record {
  update_one-matched = λ k change w d d' there gives differs. rw (there, gives) (refl, λ j. refl);
  update_one-unmatched = λ k change w missed. rw missed refl;
  find_one_and_update-matched = λ k change w d found. rw found (refl, λ j. refl);
  find_one_and_update-unmatched = λ k change w missed. rw missed refl;
  insert_one-new = λ k d w missing. rw missing (refl, λ j. refl);
  insert_one-duplicate = λ k d old w there. rw there refl;
}

abbrev database : Database Store
database = record { now = λ w. w.clock; event_locks = events_in; view_locks = views_in }

abbrev digest : Events.Node ℕ
digest = record { stringify = λ e. codes "{}"; parse = λ s. added 0 (codes "1"); md5 = λ s. s }

abbrev settings : Events.Settings
settings = record { projection_name = codes "p"; schema_version = codes "1"; event_lock_ttl = none }

mongo_event_locker-IsFaithful_example :
    IsFaithful
      (mongo_event_locker database events_in-IsCollection (λ j k d f w. refl) digest settings)
      (IsProcessed database events_in-IsCollection (λ j k d f w. refl) digest settings)
mongo_event_locker-IsFaithful_example =
    mongo_event_locker-IsFaithful database events_in-IsCollection (λ j k d f w. refl) digest
      settings

abbrev view : Views.Settings
view = record { lock_id = codes "p:1"; view_lock_ttl = 20 }

abbrev locked : Store
locked = record {
  clock = 100;
  events = λ k. none;
  views =
      written (codes "p:1")
        (some (record { locked_till = some 120; token = some (codes "a"); last_event = none }))
        (λ k. none);
}

abbrev other : Views.Locker
other = record { lock_token = some (codes "b"); lock_marker = true; lock_prolongation = true }

held_against_others_example :
    (try_lock database view (codes "b") locked ≡ (false, locked))
    × (prolong_lock database view other locked ≡ (err plain_error, other, locked))
    × ((unlock database view other locked).1 ≡ locked)
unfolding text_eq
held_against_others_example =
    held_against_others database views_in-IsCollection view (codes "a") (codes "b") other locked
      (record {
        document = record { locked_till = some 120; token = some (codes "a"); last_event = none };
        till = 120;
        stored = refl;
        owned = refl;
        lasts = refl;
        current = omega arith;
      })
      refl refl

abbrev add_one : Option ℕ → ℕ
add_one n = or_else n 0 + 1

abbrev one : Documents (Document ℕ)
one = written (codes "i") (some (record { value = 3; version = 1 })) (λ k. none)

-- Another client deletes the record in the first of two attempts.
abbrev deletes_first : ℕ → Documents (Document ℕ) → Documents (Document ℕ)
deletes_first zero w = w
deletes_first (suc n) w = λ k. none

update_enforcing_new-newest_example :
    Settled
      (documents (Document ℕ))
      (documents-IsCollection (Document ℕ))
      (codes "i")
      add_one
      deletes_first
      none
      (λ k. none)
      (update_enforcing_new (documents (Document ℕ)) (some 1) (codes "i") add_one deletes_first one)
unfolding text_eq
update_enforcing_new-newest_example =
    update_enforcing_new-newest (documents (Document ℕ)) (documents-IsCollection (Document ℕ))
      (codes "i") add_one deletes_first {w = one} {w' = λ k. none} {left = 0} (some 1) none refl
      (deleted {w = one} {w' = λ k. none} (record { value = 3; version = 1 }) refl refl calm) refl
      refl

abbrev first_codes : ObjectIds
first_codes = record { parse = λ s. elim s [ [] ↦ none | c ∷ rest ↦ some c ]; to_hex = λ n. n ∷ [] }

abbrev document : ℕ → ℕ → EventDocument ℕ
document id version = record {
  id = id;
  aggregate_key = some (plain_text (codes "c"));
  rest = record (added version []) { id = none; aggregate_id = none };
}

-- The second event of the batch has the version of the first.
commit_events-atomic_example :
    ((fits (document b'1' 0 ∷ document b'2' 0 ∷ []) [] ≡ true)
      × (commit_events first_codes
            (λ n. n)
            (added 0 (codes "1") ∷ added 0 (codes "2") ∷ [])
            false
            []
          ≡ (
            ok (
                with_ids first_codes
                  (added 0 (codes "1") ∷ added 0 (codes "2") ∷ [])
                  (document b'1' 0 ∷ document b'2' 0 ∷ [])),
            document b'1' 0 ∷ document b'2' 0 ∷ [],
          )))
    ⊎ ((fits (document b'1' 0 ∷ document b'2' 0 ∷ []) [] ≡ false)
        × (commit_events first_codes
              (λ n. n)
              (added 0 (codes "1") ∷ added 0 (codes "2") ∷ [])
              false
              []
            ≡ (err concurrency_error, [])))
unfolding to_event_documents to_event_document is_hex_object_id to_object_id to_object_id_or_string
commit_events-atomic_example =
    commit_events-atomic first_codes (λ n. n) (added 0 (codes "1") ∷ added 0 (codes "2") ∷ [])
      (document b'1' 0 ∷ document b'2' 0 ∷ []) [] refl
