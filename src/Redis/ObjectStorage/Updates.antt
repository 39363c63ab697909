-- ===== src/Redis/ObjectStorage/Updates.antt =====
-- The loops of `update` and `updateEnforcingNew` in src/redis/RedisObjectStorage.ts, while other clients write the same key.
use node_cqrs.Common.{
  ◌≡◌, ◌≢◌, refl, sym, ap, ◌∙◌, ℕ, ◌+◌, zero, suc, true, false, Option, none, some, ◌==◌, arith,
  Bool-cases, inl, inr, Text, text_eq_refl, truthy,
}
use node_cqrs.Common.Json.{Json, IsRoundTrip}
use node_cqrs.Messages.{Result, ok, err, plain_error}
use node_cqrs.Redis.{Server, IsRedis, get}
use node_cqrs.Redis.ObjectStorage.{
  Envelope, Settings, key_of, present_envelope, read, update_if, script_update_if_version, next_of,
  settle, write_updated, attempt_on, attempts, update, if_defined,
}

module _ {W V : Type 0} (server : Server W) (json : Json (Envelope V)) (o : Settings) (id : Text)
    (change : V → Result V) (meanwhile : ℕ → W → W) where
  -- From some attempts left to fewer: in each attempt between, the record was there, and other clients wrote another version of
  -- it after it was read and the function had returned.
  pub data Contended : (left : ℕ) (w : W) (left' : ℕ) (w' : W) → Type 0 where
    calm : {left : ℕ} {w : W} → Contended left w left w
    again :
        {left left' : ℕ} {w w' : W} (envelope : Envelope V) (value : V) (current : Text)
        → read server json o id w ≡ some envelope
        → change envelope.d ≡ ok value
        → get server (key_of o id) (meanwhile left w) ≡ some current
        → (json.parse current).v ≢ envelope.v
        → Contended left (meanwhile left w) left' w'
        → Contended (suc left) w left' w'

  other_version : (m n : ℕ) → m ≢ n → (m == n) ≡ false
  other_version m n h = ground arith

  same_version : (n : ℕ) → (n == n) ≡ true
  same_version n = ground arith

  attempt-mismatch :
      (left : ℕ) (w : W) (envelope : Envelope V) (value : V) (current : Text)
      → read server json o id w ≡ some envelope
      → change envelope.d ≡ ok value
      → get server (key_of o id) (meanwhile left w) ≡ some current
      → (json.parse current).v ≢ envelope.v
      → attempts server json o id change meanwhile (suc left) w
        ≡ attempts server json o id change meanwhile left (meanwhile left w)
  unfolding attempts attempt_on write_updated script_update_if_version update_if settle
  attempt-mismatch left w envelope value current there made now other =
      rw (there, made, now, other_version (json.parse current).v envelope.v other) refl

  attempt-match :
      (left : ℕ) (w : W) (raw : Text) (envelope : Envelope V) (value : V)
      → read server json o id w ≡ some envelope
      → change envelope.d ≡ ok value
      → meanwhile left w ≡ w
      → get server (key_of o id) w ≡ some raw
      → json.parse raw ≡ envelope
      → attempts server json o id change meanwhile (suc left) w ≡ (
        ok tt,
        server.set (key_of o id) (json.stringify (next_of server json o value envelope)) w,
      )
  unfolding attempts attempt_on write_updated script_update_if_version update_if settle
  attempt-match left w raw envelope value there made quiet now is =
      rw (there, made, quiet, now, is, same_version envelope.v) refl

  Contended-attempts :
      {left left' : ℕ} {w w' : W}
      → Contended left w left' w'
      → attempts server json o id change meanwhile left w
        ≡ attempts server json o id change meanwhile left' w'
  Contended-attempts calm = refl
  Contended-attempts (again {left} {w = w} envelope value current there made now other rest) =
      attempt-mismatch left w envelope value current there made now other ∙ Contended-attempts rest

  read_raw-found :
      (found : Option Text) (envelope : Envelope V)
      → present_envelope server json o found ≡ some envelope
      → (raw : Text) × (found ≡ some raw) × (json.parse raw ≡ envelope)
  unfolding present_envelope
  read_raw-found none envelope h = absurd (cc h)
  read_raw-found (some raw) envelope h = elim (Bool-cases (truthy raw)) [
    | inl t ↦ (raw, refl, ap (or_else_envelope envelope) (sym (opened t) ∙ h))
    | inr f ↦ absurd (cc (closed f, h))
  ]
    where
      or_else_envelope : Envelope V → Option (Envelope V) → Envelope V
      or_else_envelope e none = e
      or_else_envelope e (some x) = x

      opened : truthy raw ≡ true → present_envelope server json o (some raw) ≡ some (json.parse raw)
      opened t = rw t refl

      closed : truthy raw ≡ false → present_envelope server json o (some raw) ≡ none
      closed f = rw f refl

  update-defined :
      (w : W)
      → truthy id ≡ true
      → update server json o id change meanwhile w
        ≡ attempts server json o id change meanwhile (suc o.max_retries) w
  unfolding update if_defined
  update-defined w named = rw named refl

  read-set :
      (laws : IsRedis server) (rt : IsRoundTrip json) (envelope : Envelope V) (w : W)
      → truthy (json.stringify envelope) ≡ true
      → read server json o id (server.set (key_of o id) (json.stringify envelope) w) ≡ some envelope
  unfolding read present_envelope
  read-set laws rt envelope w written =
      rw
        (
          laws.cell-set (key_of o id) (key_of o id) (json.stringify envelope) w,
          text_eq_refl (key_of o id),
          written,
        )
        (ap some (rt envelope))

  -- An update is made to the newest version: however many attempts other clients spoil by writing the record in between, up to
  -- `maxRetries`, the first attempt that is left alone succeeds. With `d` the value and `v` the version that the record had at that time,
  -- it then holds the value that the function returns for `d`, and its version is v + 1. The function returns in each of these attempts,
  -- the identifier is not empty, JSON is read back as it was written and is never the empty text, and the server does what its
  -- documentation says.
  pub update-settles :
      {w w' : W} {left : ℕ} (laws : IsRedis server) (rt : IsRoundTrip json) (d value : V) (v : ℕ)
      → truthy id ≡ true
      → Contended (suc o.max_retries) w (suc left) w'
      → read server json o id w' ≡ some (record { d = d; v = v })
      → change d ≡ ok value
      → meanwhile left w' ≡ w'
      → truthy (json.stringify (record { d = value; v = v + 1 })) ≡ true
      → ((update server json o id change meanwhile w).0 ≡ ok tt)
        × (read server json o id (update server json o id change meanwhile w).1
            ≡ some (record { d = value; v = v + 1 }))
  unfolding read
  update-settles {w} {w'} {left} laws rt d value v named contended there made quiet written =
      let envelope : Envelope V = record { d = d; v = v } in
      let (raw, now, is) = read_raw-found (get server (key_of o id) w') envelope there in
      let done =
        update-defined w named
        ∙ (Contended-attempts contended
            ∙ attempt-match left w' raw envelope value there made quiet now is) in
      (
        ap (λ (p : Result (Unit {0}) × W). p.0) done,
        ap (λ (p : Result (Unit {0}) × W). read server json o id p.1) done
            ∙ read-set laws rt (record { d = value; v = v + 1 }) w' written,
      )

  attempts-zero : (w : W) → attempts server json o id change meanwhile zero w ≡ (err plain_error, w)
  unfolding attempts
  attempts-zero w = refl

  -- An update gives up after `maxRetries` retries and writes nothing: if other clients spoil every attempt by writing the record
  -- in between, it throws, and the server is as they left it. The identifier is not empty.
  pub update-exhausted :
      {w w' : W}
      → truthy id ≡ true
      → Contended (suc o.max_retries) w zero w'
      → update server json o id change meanwhile w ≡ (err plain_error, w')
  update-exhausted {w} {w'} named contended =
      update-defined w named ∙ (Contended-attempts contended ∙ attempts-zero w')
