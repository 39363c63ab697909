-- ===== src/Redis/ViewLocker.antt =====
-- src/redis/RedisViewLocker.ts. A token is what `randomUUID` made. The marker that callers wait for is set or not, and a
-- refresh, half the time to live ahead, is scheduled or not. The loop of `lock` runs on fuel, its number of attempts; `idle` is
-- what happens to the server while it waits.
pub mod Exclusion
use node_cqrs.Common.{
  ℕ, zero, suc, Bool, true, false, not, Option, none, some, Text, codes, text_eq, ◌==◌,
  if◌then◌else◌, or_else, [],
}
use node_cqrs.Messages.{Result, ok, err, plain_error}
use node_cqrs.Redis.{Server, get, set_px_nx}
use Prim.Native.Nat.{◌/◌}

pub record Settings : Type 0 where
  pub lock_key : Text
  pub view_lock_ttl : ℕ

pub record Locker : Type 0 where
  pub lock_token : Option Text
  pub lock_marker : Bool
  pub lock_prolongation : Bool

unfoldable pub ready : Locker → Bool
ready l = not l.lock_marker

unfoldable pub schedule_lock_prolongation : Locker → Locker
schedule_lock_prolongation l = record l { lock_prolongation = true }

unfoldable pub cancel_lock_prolongation : Locker → Locker
cancel_lock_prolongation l = record l { lock_prolongation = false }

module _ {W : Type 0} (server : Server W) (o : Settings) where
  prolong_if : Text → Option Text → W → ℕ × W
  prolong_if token none w = (0, w)
  prolong_if token (some val) w =
      if text_eq val token then (1, server.pexpire o.lock_key o.view_lock_ttl w) else (0, w)

  -- `SCRIPT_PROLONG_LOCK`
  unfoldable pub script_prolong_lock : Text → W → ℕ × W
  unfolding prolong_if
  script_prolong_lock token w = prolong_if token (get server o.lock_key w) w

  release_if : Text → Option Text → W → ℕ × W
  release_if token none w = (0, w)
  release_if token (some val) w = if text_eq val token then (1, server.del o.lock_key w) else (0, w)

  -- `SCRIPT_RELEASE_LOCK`
  unfoldable pub script_release_lock : Text → W → ℕ × W
  unfolding release_if
  script_release_lock token w = release_if token (get server o.lock_key w) w

  unfoldable pub try_lock : Text → W → Bool × W
  try_lock token w = set_px_nx server o.lock_key token o.view_lock_ttl w

  -- The `while` loop of `lock`
  unfoldable pub attempt_lock : ℕ → (W → W) → Text → W → Option W
  attempt_lock zero idle token w = none
  attempt_lock (suc fuel) idle token w =
      let (acquired, after) = try_lock token w in
      let rest = attempt_lock fuel idle token (idle (server.wait (o.view_lock_ttl / 2) after)) in
      if acquired then some after else rest

  unfoldable pub lock : ℕ → (W → W) → Text → Locker → W → Option (Locker × W)
  lock fuel idle token l w = elim (attempt_lock fuel idle token w) [
    | none ↦ none
    | some after ↦ some (
      schedule_lock_prolongation (record l { lock_marker = true; lock_token = some token }),
      after,
    )
  ]

  unfoldable pub prolong_lock : Locker → W → Result (Unit {0}) × Locker × W
  prolong_lock l w =
      let (result, after) = script_prolong_lock (or_else l.lock_token []) w in
      if result == 1
      then (ok tt, schedule_lock_prolongation l, after)
      else (err plain_error, l, after)

  unfoldable pub unlock : Locker → W → Locker × W
  unlock l w =
      let free = cancel_lock_prolongation (record l { lock_marker = false }) in
      (record free { lock_token = none }, (script_release_lock (or_else l.lock_token []) w).1)
