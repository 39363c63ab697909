-- ===== src/Utils/Lock.antt =====
-- src/utils/Lock.ts: named locks and a global one. JavaScript runs a task between two awaits without
-- interruption, so `acquire` is the segments `enter` and `resume`; what the tasks do is an
-- interleaving of segments. A task that awaits may be resumed at any time: it tests again.
pub mod Change
pub mod Invariant
pub mod Exclusion
use node_cqrs.Common.{
  ℕ, ◌≡◌, Bool, true, false, ◌||◌, Option, none, some, [], ◌∷◌, Text, Assoc, insert, erase, has,
  truthy, ◌==◌, if◌then◌else◌,
}

-- The marker of a global lock that is being acquired, the global lock, and the named locks. Of a
-- `Deferred` only its presence counts.
pub record Lock : Type 0 where
  pub acquiring : Bool
  pub global : Bool
  pub named : Assoc (Unit {0})

-- Where a task stands: outside, at the first loop of `acquire`, at its second loop, or with the
-- lock. No name stands for the global lock.
pub data Task : Type 0 where
  idle : Task
  entering waiting holding : Option Text → Task

-- An absent or empty name is no name.
unfoldable pub lock_key : Option Text → Option Text
lock_key none = none
lock_key (some n) = if truthy n then some n else none

-- `!!this.#namedLocks.values().next().value`
any_named : Assoc (Unit {0}) → Bool
any_named [] = false
any_named (x ∷ xs) = true

unfoldable pub is_locked : Option Text → Lock → Bool
unfolding any_named
is_locked (some n) l = l.global || has n l.named
is_locked none l = l.global || any_named l.named

take : Option Text → Lock → Lock
take (some n) l = record l { named = insert n tt l.named }
take none l = record l { acquiring = false; global = true }

-- The second loop of `acquire` and what follows it.
unfoldable pub try_lock : Option Text → Lock → Lock × Task
unfolding take
try_lock n l = if is_locked n l then (l, waiting n) else (take n l, holding n)

announce : Option Text → Lock → Lock
announce (some n) l = l
announce none l = record l { acquiring = true }

-- `acquire`, from its start or from its first await on
unfoldable pub enter : Option Text → Lock → Lock × Task
unfolding announce
enter n l = if l.acquiring then (l, entering n) else try_lock n (announce n l)

unfoldable pub resume : Task → Lock → Lock × Task
resume (entering n) l = enter n l
resume (waiting n) l = try_lock n l
resume idle l = (l, idle)
resume (holding n) l = (l, holding n)

unfoldable pub release : Option Text → Lock → Lock
release (some n) l = record l { named = erase n l.named }
release none l = record l { global = false }

-- The lock and its tasks.
pub record System : Type 0 where
  pub lock : Lock
  pub tasks : ℕ → Task

abbrev pub update : (ℕ → Task) → ℕ → Task → ℕ → Task
update tasks i task j = if j == i then task else tasks j

abbrev pub after : System → ℕ → Lock × Task → System
after s i (lock, task) = record { lock = lock; tasks = update s.tasks i task }

abbrev pub init : System
init = record { lock = record { acquiring = false; global = false; named = [] }; tasks = λ i. idle }

-- A task calls `acquire`, one that awaits is resumed, or one that has the lock releases its lease,
-- which it does once.
pub data Step (s : System) : System → Type 0 where
  acquires :
      (i : ℕ) (name : Option Text)
      → s.tasks i ≡ idle
      → Step s (after s i (enter (lock_key name) s.lock))
  resumes : (i : ℕ) → Step s (after s i (resume (s.tasks i) s.lock))
  releases :
      (i : ℕ) (n : Option Text)
      → s.tasks i ≡ holding n
      → Step s (after s i (release n s.lock, idle))

pub data Reach (s : System) : System → Type 0 where
  here : Reach s s
  next : {t u : System} → Reach s t → Step t u → Reach s u
