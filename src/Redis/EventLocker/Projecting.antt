-- ===== src/Redis/EventLocker/Projecting.antt =====
-- What RedisEventLocker promises a projection: an event marked as projected is never handed out again.
use node_cqrs.Common.{
  ◌≡◌, ◌≢◌, refl, sym, ap, ◌∙◌, subst, ℕ, true, false, none, some, ◌==◌, ==_iff, arith, Bool-cases,
  inl, inr, Text, text_eq, text_eq_sound, text_eq_refl, codes, or_else, ◌++◌, ◌∷◌, [],
  if◌then◌else◌, append_assoc,
}
use node_cqrs.Messages.{Event, Result, ok, err, plain_error}
use node_cqrs.Projection.{EventLocker}
use node_cqrs.Projection.Once.{IsFaithful}
use node_cqrs.Redis.{Server, IsRedis, Cell, value_of}
use node_cqrs.Redis.EventLocker.{
  Node, Params, Settings, settings_of, key_of, event_lock_key, get_event_id, key_of_event,
  processing, processed, colon, script_try_lock, script_finalize_lock, try_mark_as_projecting,
  mark_as_projected, mark_as_last_event, get_last_event, try_lock_if, finalize_if,
}

append-left : (p a b : Text) → p ++ a ≡ p ++ b → a ≡ b
append-left [] a b h = h
append-left (c ∷ p) a b h = append-left p a b (cc)

second : Text → ℕ
second (x ∷ y ∷ rest) = y
second _ = 0

-- The key of an event's lock is never the key of the checkpoint.
keys_apart :
    (o : Params) (id : Text) → event_lock_key (settings_of o) id ≢ (settings_of o).last_event_key
unfolding event_lock_key settings_of key_of second
keys_apart o id h =
    let prefix = or_else o.key_prefix (codes "ncqrs") in
    let rest = colon ∷ (o.projection_name ++ colon ∷ o.schema_version) in
    let tails =
      append-left prefix _ _
        (sym (append_assoc prefix (colon ∷ (codes "evtlock" ++ rest)) (colon ∷ id)) ∙ h) in
    omega (arith, ap second tails)

module _ {W A : Type 0} (server : Server W) (laws : IsRedis server) (node : Node A)
    (s : Settings) where
  -- The event's key holds the mark of a processed event, for ever.
  abbrev pub IsProcessed : Event A → W → Type 0
  IsProcessed e w = server.cell (key_of_event server node s e) w ≡ some (processed, none)

  refuses :
      (e : Event A) (w : W)
      → IsProcessed e w
      → try_mark_as_projecting server node s e w ≡ (ok false, w)
  unfolding try_mark_as_projecting script_try_lock try_lock_if
  refuses e w h = rw h refl

  cell-set_self : (k v : Text) (w : W) → server.cell k (server.set k v w) ≡ some (v, none)
  cell-set_self k v w = laws.cell-set k k v w ∙ rw (text_eq_refl k) refl

  other_key :
      (e : Event A)
      → key_of_event server node s e ≢ s.last_event_key
      → (v : Text) (w : W) → IsProcessed e w
      → (if text_eq s.last_event_key (key_of_event server node s e)
          then some (v, none)
          else server.cell (key_of_event server node s e) w)
        ≡ some (processed, none)
  other_key e apart v w is =
      elim (Bool-cases (text_eq s.last_event_key (key_of_event server node s e))) [
        | inl same ↦
            absurd
              (apart (sym (text_eq_sound s.last_event_key (key_of_event server node s e) same)))
        | inr other ↦ rw other is
      ]

  finalize_if-Processed :
      (key : Text) (found : Cell) (w after : W)
      → server.cell key w ≡ found
      → finalize_if server key (value_of found) w ≡ (1, after)
      → server.cell key after ≡ some (processed, none)
  unfolding finalize_if
  finalize_if-Processed key none w after is h = absurd (cc h)
  finalize_if-Processed key (some (val, left)) w after is h =
      elim (Bool-cases (text_eq val processing)) [
        | inl e ↦
            let wrote : server.set key processed w ≡ after =
              ap (λ (p : ℕ × W). p.1) (sym (finalized e) ∙ h) in
            subst (λ (v : W). server.cell key v ≡ some (processed, none)) wrote
              (cell-set_self key processed w)
        | inr e ↦ absurd (cc (unfinalized e, h))
      ]
    where
      finalized :
          text_eq val processing ≡ true
          → finalize_if server key (some val) w ≡ (1, server.set key processed w)
      finalized e = rw e refl

      unfinalized : text_eq val processing ≡ false → finalize_if server key (some val) w ≡ (0, w)
      unfinalized e = rw e refl

  marked :
      (e : Event A) (w : W)
      → ((script_finalize_lock server (key_of_event server node s e) w).0 == 1) ≡ true
      → mark_as_projected server node s e w
        ≡ (ok tt, (script_finalize_lock server (key_of_event server node s e) w).1)
  unfolding mark_as_projected
  marked e w one = rw one refl

  unmarked :
      (e : Event A) (w : W)
      → ((script_finalize_lock server (key_of_event server node s e) w).0 == 1) ≡ false
      → mark_as_projected server node s e w
        ≡ (err plain_error, (script_finalize_lock server (key_of_event server node s e) w).1)
  unfolding mark_as_projected
  unmarked e w other = rw other refl

  marks :
      (e : Event A) (w after : W)
      → mark_as_projected server node s e w ≡ (ok tt, after)
      → IsProcessed e after
  unfolding script_finalize_lock
  marks e w after h =
      let key = key_of_event server node s e in
      let result = script_finalize_lock server key w in
      elim (Bool-cases (result.0 == 1)) [
        | inl one ↦
            let wrote : result.1 ≡ after =
              ap (λ (p : Result (Unit {0}) × W). p.1) (sym (marked e w one) ∙ h) in
            let is_one : result.0 ≡ 1 = (==_iff result.0 1).0 one in
            finalize_if-Processed key (server.cell key w) w after refl (λ i. (is_one i, wrote i))
        | inr other ↦ absurd (cc (unmarked e w other, h))
      ]

  keeps :
      (e last : Event A) (w after : W)
      → key_of_event server node s e ≢ s.last_event_key
      → mark_as_last_event server node s last w ≡ (ok tt, after)
      → IsProcessed e w
      → IsProcessed e after
  unfolding mark_as_last_event
  keeps e last w after apart h is =
      let key = key_of_event server node s e in
      let wrote : server.set s.last_event_key (node.stringify last) w ≡ after =
        ap (λ (p : Result (Unit {0}) × W). p.1) h in
      subst (λ (v : W). server.cell key v ≡ some (processed, none)) wrote
        (laws.cell-set s.last_event_key key (node.stringify last) w
          ∙ other_key e apart (node.stringify last) w is)

  abbrev pub redis_event_locker : EventLocker W A
  redis_event_locker = record {
    get_last_event = get_last_event server node s;
    try_mark_as_projecting = try_mark_as_projecting server node s;
    mark_as_projected = mark_as_projected server node s;
    mark_as_last_event = mark_as_last_event server node s;
  }

module _ {W A : Type 0} (server : Server W) (laws : IsRedis server) (node : Node A)
    (o : Params) where
  event_key_apart :
      (e : Event A) → key_of_event server node (settings_of o) e ≢ (settings_of o).last_event_key
  unfolding key_of_event
  event_key_apart e = keys_apart o (get_event_id node e)

  -- The locker over Redis keeps the promise that a projection rests on, with the keys that its constructor makes, if the server
  -- does what its commands' documentation says: the key of an event marked as projected holds that mark without expiry, such an event is
  -- refused, and a checkpoint leaves the mark, its key being another one.
  pub redis_event_locker-IsFaithful :
      IsFaithful
        (redis_event_locker server laws node (settings_of o))
        (IsProcessed server laws node (settings_of o))
  redis_event_locker-IsFaithful =
      let s = settings_of o in
      record {
        refuses = refuses server laws node s;
        marks = marks server laws node s;
        keeps =
            λ e last w after h is. keeps server laws node s e last w after (event_key_apart e) h is;
      }
