-- ===== src/Mongo.antt =====
-- src/mongodb: the lockers and the storage over collections of a MongoDB server, with the connection open. A collection is a
-- parameter: the methods of the driver that the source calls, each for the document of one `_id`, and what their documentation
-- says. A filter with its `$set` is a function: none where the document does not match.
pub mod EventLocker
pub mod ViewLocker
pub mod ObjectStorage
pub mod EventStorage
use node_cqrs.Common.{
  ℕ, Bool, true, false, Option, none, some, Text, text_eq, if◌then◌else◌, ◌≡◌, ◌≢◌,
}

pub record Collection (W D : Type 0) : Type 0 where
  pub find_one : Text → W → Option D
  -- The number of documents modified
  pub update_one : Text → (D → Option D) → W → ℕ × W
  pub upsert_one : Text → D → (D → D) → W → W
  -- Whether a document matched
  pub find_one_and_update : Text → (D → Option D) → W → Bool × W
  -- False for the error of a duplicate key, code 11000
  pub insert_one : Text → D → W → Bool × W
  pub delete_one : Text → W → ℕ × W

-- After a call the document of one key is that, and those of the other keys are what they were.
abbrev pub HasSet : {W D : Type 0} → Collection W D → Text → Option D → W → W → Type 0
HasSet c k d before after =
    (j : Text) → c.find_one j after ≡ (if text_eq k j then d else c.find_one j before)

abbrev pub matching : {D : Type 0} → (D → Option D) → Option D → Option D
matching change none = none
matching change (some d) = change d

-- The documentation of the methods; an update that changes nothing in a document does not count as a modification.
pub record IsCollection {W D : Type 0} (c : Collection W D) : Type 0 where
  pub update_one-matched :
      (k : Text) (change : D → Option D) (w : W) (d d' : D)
      → c.find_one k w ≡ some d
      → change d ≡ some d'
      → d ≢ d'
      → ((c.update_one k change w).0 ≡ 1) × HasSet c k (some d') w (c.update_one k change w).1
  pub update_one-unmatched :
      (k : Text) (change : D → Option D) (w : W)
      → matching change (c.find_one k w) ≡ none
      → c.update_one k change w ≡ (0, w)
  pub find_one_and_update-matched :
      (k : Text) (change : D → Option D) (w : W) (d : D)
      → matching change (c.find_one k w) ≡ some d
      → ((c.find_one_and_update k change w).0 ≡ true)
        × HasSet c k (some d) w (c.find_one_and_update k change w).1
  pub find_one_and_update-unmatched :
      (k : Text) (change : D → Option D) (w : W)
      → matching change (c.find_one k w) ≡ none
      → c.find_one_and_update k change w ≡ (false, w)
  pub insert_one-new :
      (k : Text) (d : D) (w : W)
      → c.find_one k w ≡ none
      → ((c.insert_one k d w).0 ≡ true) × HasSet c k (some d) w (c.insert_one k d w).1
  pub insert_one-duplicate :
      (k : Text) (d old : D) (w : W) → c.find_one k w ≡ some old → c.insert_one k d w ≡ (false, w)
