-- ===== src/Redis.antt =====
-- src/redis: the lockers and the storage over a Redis server, with the connection open. The server is a parameter: its
-- commands, and what their documentation says of them. A Lua script of the source runs as one step.
pub mod EventLocker
pub mod ViewLocker
pub mod ObjectStorage
use node_cqrs.Common.{
  ℕ, ◌-◌, Bool, true, false, Option, none, some, Text, text_eq, leb, if◌then◌else◌, ◌≡◌,
}

-- A key holds a text, and for some milliseconds only if it was given a time to live.
abbrev pub Cell : Type 0
Cell = Option (Text × Option ℕ)

-- The commands; `cell` is what `GET` and `PTTL` answer, and `wait` lets milliseconds pass.
pub record Server (W : Type 0) : Type 0 where
  pub cell : Text → W → Cell
  pub set : Text → Text → W → W
  pub set_px : Text → Text → ℕ → W → W
  pub pexpire : Text → ℕ → W → W
  pub del : Text → W → W
  pub wait : ℕ → W → W

abbrev pub value_of : Cell → Option Text
value_of none = none
value_of (some entry) = some entry.0

abbrev pub with_ttl : ℕ → Cell → Cell
with_ttl n none = none
with_ttl n (some entry) = some (entry.0, some n)

-- What is left of a cell some milliseconds later.
unfoldable pub aged : ℕ → Cell → Cell
aged d none = none
aged d (some (v, none)) = some (v, none)
aged d (some (v, some n)) = if leb n d then none else some (v, some (n - d))

-- The documentation of the commands.
pub record IsRedis {W : Type 0} (server : Server W) : Type 0 where
  pub cell-set :
      (k j v : Text) (w : W)
      → server.cell j (server.set k v w) ≡ (if text_eq k j then some (v, none) else server.cell j w)
  pub cell-set_px :
      (k j v : Text) (n : ℕ) (w : W)
      → server.cell j (server.set_px k v n w)
        ≡ (if text_eq k j then some (v, some n) else server.cell j w)
  pub cell-pexpire :
      (k j : Text) (n : ℕ) (w : W)
      → server.cell j (server.pexpire k n w)
        ≡ (if text_eq k j then with_ttl n (server.cell j w) else server.cell j w)
  pub cell-del :
      (k j : Text) (w : W)
      → server.cell j (server.del k w) ≡ (if text_eq k j then none else server.cell j w)
  pub cell-wait :
      (k : Text) (d : ℕ) (w : W) → server.cell k (server.wait d w) ≡ aged d (server.cell k w)

-- The option `NX`: the write is done if the key was not there.
unfoldable pub unless_there : {W : Type 0} → Cell → W → W → Bool × W
unless_there none written w = (true, written)
unless_there (some entry) written w = (false, w)

module _ {W : Type 0} (server : Server W) where
  -- `GET key`
  abbrev pub get : Text → W → Option Text
  get k w = value_of (server.cell k w)

  -- `SET key value NX` and `SET key value PX ttl NX`, which answer `OK` or nothing
  unfoldable pub set_nx : Text → Text → W → Bool × W
  set_nx k v w = unless_there (server.cell k w) (server.set k v w) w

  unfoldable pub set_px_nx : Text → Text → ℕ → W → Bool × W
  set_px_nx k v n w = unless_there (server.cell k w) (server.set_px k v n w) w
