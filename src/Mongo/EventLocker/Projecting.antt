-- ===== src/Mongo/EventLocker/Projecting.antt =====
-- What MongoEventLocker promises a projection: an event marked as projected is never handed out again.
use node_cqrs.Common.{
  ◌≡◌, refl, sym, ap, ◌∙◌, ℕ, true, false, Option, none, some, arith, Option-cases, inl, inr, Text,
  text_eq_refl,
}
use node_cqrs.Messages.{Event, Result, ok, err, plain_error}
use node_cqrs.Projection.{EventLocker}
use node_cqrs.Projection.Once.{IsFaithful}
use node_cqrs.Mongo.{IsCollection, matching}
use node_cqrs.Mongo.EventLocker.{
  Node, EventLock, ViewLock, Database, Settings, ttl_of, claimed, finished, key_of_event,
  insert_lock, view_lock_id, try_mark_as_projecting, mark_as_projected, mark_as_last_event,
  get_last_event,
}

claimed-processed :
    (ttl now t : ℕ) (d : EventLock) → d.processed_at ≡ some t → claimed ttl now d ≡ none
unfolding claimed
claimed-processed ttl now t d h = rw h refl

finished-processed :
    (now : ℕ) (d d' : EventLock) → finished now d ≡ some d' → d'.processed_at ≡ some now
unfolding finished
finished-processed now d d' h = ground arith

matching-finished :
    (now : ℕ) (found : Option EventLock) (d' : EventLock)
    → matching (finished now) found ≡ some d'
    → d'.processed_at ≡ some now
matching-finished now none d' h = absurd (cc h)
matching-finished now (some d) d' h = finished-processed now d d' h

module _ {W A : Type 0} (db : Database W) (laws : IsCollection db.event_locks)
    (separate : (j k : Text) (d : ViewLock) (change : ViewLock → ViewLock) (w : W)
      → db.event_locks.find_one j (db.view_locks.upsert_one k d change w)
        ≡ db.event_locks.find_one j w)
    (node : Node A) (o : Settings) where
  -- The event has a document that says when it was processed.
  abbrev pub IsProcessed : Event A → W → Type 0
  IsProcessed e w =
      (d : EventLock) × (t : ℕ) × (db.event_locks.find_one (key_of_event db node o e) w ≡ some d)
      × (d.processed_at ≡ some t)

  refuses :
      (e : Event A) (w : W) → IsProcessed e w → try_mark_as_projecting db node o e w ≡ (ok false, w)
  unfolding try_mark_as_projecting insert_lock
  refuses e w (d, t, there, at) =
      let key = key_of_event db node o e in
      rw
        (
          laws.update_one-unmatched key (claimed (ttl_of o) (db.now w)) w (
              ap (matching (claimed (ttl_of o) (db.now w))) there
              ∙ claimed-processed (ttl_of o) (db.now w) t d at),
          laws.insert_one-duplicate key
              (record { processing_at = some (db.now w); processed_at = none }) d w there,
        )
        refl

  marks :
      (e : Event A) (w after : W)
      → mark_as_projected db node o e w ≡ (ok tt, after)
      → IsProcessed e after
  unfolding mark_as_projected
  marks e w after h =
      let key = key_of_event db node o e in
      let now = db.now w in
      elim (Option-cases (matching (finished now) (db.event_locks.find_one key w))) [
        | inl missed ↦ absurd (cc (refused missed, h))
        | inr (d, found) ↦
            let (hit, set) = laws.find_one_and_update-matched key (finished now) w d found in
            (
              d,
              now,
              ap (db.event_locks.find_one key) (sym (wrote hit))
                  ∙ (set key ∙ rw (text_eq_refl key) refl),
              matching-finished now (db.event_locks.find_one key w) d found,
            )
      ]
    where
      refused :
          matching (finished (db.now w)) (db.event_locks.find_one (key_of_event db node o e) w)
            ≡ none
          → mark_as_projected db node o e w ≡ (err plain_error, w)
      refused missed =
          rw
            (laws.find_one_and_update-unmatched (key_of_event db node o e) (finished (db.now w)) w
              missed)
            refl

      marked :
          (db.event_locks.find_one_and_update (key_of_event db node o e) (finished (db.now w)) w).0
            ≡ true
          → mark_as_projected db node o e w ≡ (
            ok tt,
            (db.event_locks.find_one_and_update
                (key_of_event db node o e)
                (finished (db.now w))
                w).1,
          )
      marked hit = rw hit refl

      wrote :
          (db.event_locks.find_one_and_update (key_of_event db node o e) (finished (db.now w)) w).0
            ≡ true
          → (db.event_locks.find_one_and_update
              (key_of_event db node o e)
              (finished (db.now w))
              w).1
            ≡ after
      wrote hit = ap (λ (p : Result (Unit {0}) × W). p.1) (sym (marked hit) ∙ h)

  keeps :
      (e last : Event A) (w after : W)
      → mark_as_last_event db node o last w ≡ (ok tt, after)
      → IsProcessed e w
      → IsProcessed e after
  unfolding mark_as_last_event
  keeps e last w after h (d, t, there, at) =
      let key = key_of_event db node o e in
      (
        d,
        t,
        ap (λ (p : Result (Unit {0}) × W). db.event_locks.find_one key p.1) (sym h)
            ∙ (separate key (view_lock_id o) _ _ w ∙ there),
        at,
      )

  abbrev pub mongo_event_locker : EventLocker W A
  mongo_event_locker = record {
    get_last_event = get_last_event db node o;
    try_mark_as_projecting = try_mark_as_projecting db node o;
    mark_as_projected = mark_as_projected db node o;
    mark_as_last_event = mark_as_last_event db node o;
  }

  -- The locker over MongoDB keeps the promise that a projection rests on, if the methods of the driver do what their documentation says and a
  -- write to one collection leaves the other: an event marked as projected has a document with the time of it, such an event is
  -- refused, and a checkpoint leaves the document.
  pub mongo_event_locker-IsFaithful : IsFaithful mongo_event_locker IsProcessed
  mongo_event_locker-IsFaithful = record { refuses = refuses; marks = marks; keeps = keeps }
