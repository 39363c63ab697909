-- ===== src/Mongo/ObjectStorage/Updates.antt =====
-- The loop of `updateEnforcingNew` in src/mongodb/MongoObjectStorage.ts, while other clients write the same record.
use node_cqrs.Common.{
  ◌≡◌, ◌≢◌, refl, sym, ap, subst, ◌∙◌, ℕ, suc, ◌+◌, true, false, Option, none, some, Bool, arith,
  Text, truthy, or_else,
}
use node_cqrs.Messages.{Result, ok}
use node_cqrs.Mongo.{Collection, IsCollection, matching, HasSet}
use node_cqrs.Mongo.ObjectStorage.{
  Document, replaced, settle, write, attempt_new, attempts_new, update_enforcing_new, if_defined,
}

replaced-other :
    {V : Type 0} (value : V) (version : ℕ) (d : Document V)
    → d.version ≢ version
    → replaced value version d ≡ none
unfolding replaced
replaced-other value version d other = ground arith

replaced-same :
    {V : Type 0} (value : V) (d : Document V)
    → replaced value d.version d ≡ some (record { value = value; version = d.version + 1 })
unfolding replaced
replaced-same value d = ground arith

-- The record after the function is applied to it, or to none.
abbrev pub next_of : {V : Type 0} → (Option V → V) → Option (Document V) → Document V
next_of change none = record { value = change none; version = 1 }
next_of change (some d) = record { value = change (some d.value); version = d.version + 1 }

module _ {W V : Type 0} (c : Collection W (Document V)) (laws : IsCollection c) (id : Text)
    (change : Option V → V) (meanwhile : ℕ → W → W) where
  -- From some attempts left to fewer: in each attempt between, after the record was read other clients wrote another version of
  -- it, deleted it, or created it.
  pub data Contended : (left : ℕ) (w : W) (left' : ℕ) (w' : W) → Type 0 where
    calm : {left : ℕ} {w : W} → Contended left w left w
    rewritten :
        {left left' : ℕ} {w w' : W} (d current : Document V)
        → c.find_one id w ≡ some d
        → c.find_one id (meanwhile left w) ≡ some current
        → current.version ≢ d.version
        → Contended left (meanwhile left w) left' w'
        → Contended (suc left) w left' w'
    deleted :
        {left left' : ℕ} {w w' : W} (d : Document V)
        → c.find_one id w ≡ some d
        → c.find_one id (meanwhile left w) ≡ none
        → Contended left (meanwhile left w) left' w'
        → Contended (suc left) w left' w'
    created :
        {left left' : ℕ} {w w' : W} (current : Document V)
        → c.find_one id w ≡ none
        → c.find_one id (meanwhile left w) ≡ some current
        → Contended left (meanwhile left w) left' w'
        → Contended (suc left) w left' w'

  abbrev loop : ℕ → W → Result (Unit {0}) × W
  loop = attempts_new c id change meanwhile

  loop-missed :
      (left : ℕ) (w : W) (d : Document V)
      → c.find_one id w ≡ some d
      → matching (replaced (change (some d.value)) d.version) (c.find_one id (meanwhile left w))
        ≡ none
      → loop (suc left) w ≡ loop left (meanwhile left w)
  unfolding attempts_new attempt_new write settle
  loop-missed left w d there missed =
      rw
        (
          there,
          laws.find_one_and_update-unmatched id (replaced (change (some d.value)) d.version)
              (meanwhile left w) missed,
        )
        refl

  loop-created :
      (left : ℕ) (w : W) (current : Document V)
      → c.find_one id w ≡ none
      → c.find_one id (meanwhile left w) ≡ some current
      → loop (suc left) w ≡ loop left (meanwhile left w)
  unfolding attempts_new attempt_new settle
  loop-created left w current missing now =
      rw
        (
          missing,
          laws.insert_one-duplicate id (record { value = change none; version = 1 }) current
              (meanwhile left w) now,
        )
        refl

  Contended-loop :
      {left left' : ℕ} {w w' : W} → Contended left w left' w' → loop left w ≡ loop left' w'
  Contended-loop calm = refl
  Contended-loop (rewritten {left} {w = w} d current there now other rest) =
      loop-missed left w d there (
        ap (matching (replaced (change (some d.value)) d.version)) now
        ∙ replaced-other (change (some d.value)) d.version current other)
      ∙ Contended-loop rest
  Contended-loop (deleted {left} {w = w} d there now rest) =
      loop-missed left w d there (ap (matching (replaced (change (some d.value)) d.version)) now)
      ∙ Contended-loop rest
  Contended-loop (created {left} {w = w} current missing now rest) =
      loop-created left w current missing now ∙ Contended-loop rest

  settle-done : (left : ℕ) (p : Bool × W) → p.0 ≡ true → settle c (loop left) p ≡ (ok tt, p.1)
  unfolding settle
  settle-done left (true, w) h = refl
  settle-done left (false, w) h = absurd (cc h)

  abbrev pub Settled : Option (Document V) → W → Result (Unit {0}) × W → Type 0
  Settled found w p = (p.0 ≡ ok tt) × HasSet c id (some (next_of change found)) w p.1

  loop-quiet :
      (left : ℕ) (w : W) (found : Option (Document V))
      → c.find_one id w ≡ found
      → meanwhile left w ≡ w
      → Settled found w (loop (suc left) w)
  unfolding attempts_new attempt_new write
  loop-quiet left w none missing quiet =
      rw (missing, quiet)
        (let (done, set) = laws.insert_one-new id (next_of change none) w missing in
          subst (Settled none w)
            (sym (settle-done left (c.insert_one id (next_of change none) w) done)) (refl, set))
  loop-quiet left w (some d) there quiet =
      rw (there, quiet)
        (let (done, set) =
            laws.find_one_and_update-matched id (replaced (change (some d.value)) d.version) w
              (next_of change (some d))
              (ap (matching (replaced (change (some d.value)) d.version)) there
                ∙ replaced-same (change (some d.value)) d) in
          subst (Settled (some d) w)
            (sym (
              settle-done left
                (c.find_one_and_update id (replaced (change (some d.value)) d.version) w) done))
            (refl, set))

  -- `updateEnforcingNew` goes to the newest state of the record: however many attempts other clients spoil by rewriting, deleting or
  -- creating the record in between, up to `maxRetries`, the first attempt that is left alone succeeds. The record then holds what the
  -- function makes of the value that the record had at that time, with the next version, or of none if it was not there, and every
  -- other record is what it was. The identifier is not empty, and the driver does what its documentation says.
  pub update_enforcing_new-newest :
      {w w' : W} {left : ℕ} (max_retries : Option ℕ) (found : Option (Document V))
      → truthy id ≡ true
      → Contended (suc (or_else max_retries 100)) w (suc left) w'
      → c.find_one id w' ≡ found
      → meanwhile left w' ≡ w'
      → Settled found w' (update_enforcing_new c max_retries id change meanwhile w)
  unfolding update_enforcing_new if_defined
  update_enforcing_new-newest {w} {w'} {left} max_retries found named contended there quiet =
      rw (named, Contended-loop contended) (loop-quiet left w' found there quiet)
