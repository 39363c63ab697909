-- ===== src/Mongo/ViewLocker/Holding.antt =====
-- Lockers on one view of src/mongodb/MongoViewLocker.ts: what the holder of the lock can rely on.
use node_cqrs.Common.{
  ◌≡◌, ◌≢◌, refl, ap, ◌∙◌, ℕ, ◌+◌, ◌≤◌, true, false, Option, none, some, Bool, arith, Text, text_eq,
}
use node_cqrs.Messages.{err, plain_error}
use node_cqrs.Mongo.{IsCollection, matching}
use node_cqrs.Mongo.EventLocker.{ViewLock, Database}
use node_cqrs.Mongo.ViewLocker.{
  Settings, Locker, is_over, claimed, same_token, prolonged, released, try_lock, prolong_lock,
  unlock,
}

claimed-held :
    (now till held : ℕ) (token : Text) (d : ViewLock)
    → d.locked_till ≡ some held
    → now ≤ held
    → claimed now till token d ≡ none
unfolding claimed is_over
claimed-held now till held token d at current = ground arith

prolonged-foreign :
    (a b : Text) (till : ℕ) (d : ViewLock)
    → d.token ≡ some a
    → text_eq a b ≡ false
    → prolonged (some b) till d ≡ none
unfolding prolonged same_token
prolonged-foreign a b till d own other = rw (own, other) refl

released-foreign :
    (a b : Text) (d : ViewLock)
    → d.token ≡ some a
    → text_eq a b ≡ false
    → released (some b) d ≡ none
unfolding released same_token
released-foreign a b d own other = rw (own, other) refl

claimed-over :
    (now till : ℕ) (token : Text) (d : ViewLock)
    → is_over now d.locked_till ≡ true
    → claimed now till token d ≡ some (record d { locked_till = some till; token = some token })
unfolding claimed
claimed-over now till token d over = rw over refl

is_over-later : (now ttl : ℕ) (o : Option ℕ) → is_over now o ≡ true → o ≢ some (now + ttl)
unfolding is_over
is_over-later now ttl none over e = ground arith
is_over-later now ttl (some till) over e = ground arith

module _ {W : Type 0} (db : Database W) (laws : IsCollection db.view_locks) (o : Settings) where
  -- The locker with this token holds the view until some time from now on.
  pub record IsHeld (token : Text) (w : W) : Type 0 where
    pub document : ViewLock
    pub till : ℕ
    pub stored : db.view_locks.find_one o.lock_id w ≡ some document
    pub owned : document.token ≡ some token
    pub lasts : document.locked_till ≡ some till
    pub current : db.now w ≤ till

  try_lock-held : (a b : Text) (w : W) → IsHeld a w → try_lock db o b w ≡ (false, w)
  unfolding try_lock
  try_lock-held a b w held =
      let till = db.now w + o.view_lock_ttl in
      rw
        (
          laws.update_one-unmatched o.lock_id (claimed (db.now w) till b) w (
              ap (matching (claimed (db.now w) till b)) held.stored
              ∙ claimed-held (db.now w) till held.till b held.document held.lasts held.current),
          laws.insert_one-duplicate o.lock_id
              (record { locked_till = some till; token = some b; last_event = none }) held.document
              w held.stored,
        )
        refl

  prolong-foreign :
      (a b : Text) (l : Locker) (w : W)
      → IsHeld a w
      → l.lock_token ≡ some b
      → text_eq a b ≡ false
      → prolong_lock db o l w ≡ (err plain_error, l, w)
  unfolding prolong_lock
  prolong-foreign a b l w held is other =
      let till = db.now w + o.view_lock_ttl in
      rw
        (laws.find_one_and_update-unmatched o.lock_id (prolonged l.lock_token till) w (
          ap (matching (prolonged l.lock_token till)) held.stored
          ∙ (ap (λ (t : Option Text). prolonged t till held.document) is
              ∙ prolonged-foreign a b till held.document held.owned other)))
        refl

  unlock-foreign :
      (a b : Text) (l : Locker) (w : W)
      → IsHeld a w
      → l.lock_token ≡ some b
      → text_eq a b ≡ false
      → (unlock db o l w).1 ≡ w
  unfolding unlock
  unlock-foreign a b l w held is other =
      ap (λ (p : Bool × W). p.1)
        (laws.find_one_and_update-unmatched o.lock_id (released l.lock_token) w (
          ap (matching (released l.lock_token)) held.stored
          ∙ (ap (λ (t : Option Text). released t held.document) is
              ∙ released-foreign a b held.document held.owned other)))

  -- While a locker holds a view no other one can take the lock or end it: an attempt to lock the view is refused, to prolong a
  -- lock under another token throws, to unlock under another token does nothing, and the server is unchanged by all three.
  pub held_against_others :
      (a b : Text) (l : Locker) (w : W)
      → IsHeld a w
      → l.lock_token ≡ some b
      → text_eq a b ≡ false
      → (try_lock db o b w ≡ (false, w))
        × (prolong_lock db o l w ≡ (err plain_error, l, w))
        × ((unlock db o l w).1 ≡ w)
  held_against_others a b l w held is other = (
    try_lock-held a b w held,
    prolong-foreign a b l w held is other,
    unlock-foreign a b l w held is other,
  )
