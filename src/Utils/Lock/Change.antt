-- ===== src/Utils/Lock/Change.antt =====
-- What a segment of a task does to the lock of src/utils/Lock.ts and to the task.
use node_cqrs.Common.{
  ◌≡◌, refl, Bool, true, false, Option, none, some, [], ◌∷◌, Text, Assoc, insert, erase, has,
  if◌then◌else◌, arith, inl, inr, ◌⊎◌, Bool-cases,
}
use node_cqrs.Utils.Lock.{
  Lock, Task, idle, entering, waiting, holding, is_locked, any_named, try_lock, announce, enter,
  resume, release,
}

-- How one segment of a task changes the lock and the task.
pub data Change (l : Lock) (old : Task) (l' : Lock) (new : Task) : Type 0 where
  stays : l' ≡ l → new ≡ old → Change l old l' new
  enters : (n : Option Text) → l' ≡ l → new ≡ entering n → Change l old l' new
  waits : (k : Text) → l' ≡ l → new ≡ waiting (some k) → Change l old l' new
  announces :
      (l.acquiring ≡ false) ⊎ (old ≡ waiting none)
      → l' ≡ record l { acquiring = true }
      → new ≡ waiting none
      → Change l old l' new
  takes_named :
      (k : Text)
      → l.global ≡ false
      → has k l.named ≡ false
      → l' ≡ record l { named = insert k tt l.named }
      → new ≡ holding (some k)
      → Change l old l' new
  takes_global :
      l.global ≡ false
      → l.named ≡ []
      → (l.acquiring ≡ false) ⊎ (old ≡ waiting none)
      → l' ≡ record l { acquiring = false; global = true }
      → new ≡ holding none
      → Change l old l' new
  leaves_named :
      (k : Text)
      → old ≡ holding (some k)
      → l' ≡ record l { named = erase k l.named }
      → new ≡ idle
      → Change l old l' new
  leaves_global :
      old ≡ holding none → l' ≡ record l { global = false } → new ≡ idle → Change l old l' new

try_named :
    (l : Lock) (old : Task) (k : Text)
    → Change l old (try_lock (some k) l).0 (try_lock (some k) l).1
unfolding try_lock is_locked
try_named l old k = elim (Bool-cases (is_locked (some k) l)) [
  | inl locked ↦ rw locked (waits k refl refl)
  | inr free ↦ rw free (takes_named k (ground arith) (ground arith) refl refl)
]

no_names : (m : Assoc (Unit {0})) → any_named m ≡ false → m ≡ []
unfolding any_named
no_names [] h = refl
no_names (x ∷ m) h = absurd (cc h)

try_global :
    (l m : Lock) (old : Task)
    → (l.acquiring ≡ false) ⊎ (old ≡ waiting none)
    → m ≡ record l { acquiring = true }
    → Change l old (try_lock none m).0 (try_lock none m).1
unfolding try_lock
try_global l m old h e = elim (Bool-cases (is_locked none m)) [
  | inl locked ↦ rw locked (announces h e refl)
  | inr free ↦ rw free (
      takes_global (unfold is_locked in ground (arith, e))
        (no_names l.named (unfold is_locked in ground (arith, e))) h (ground (arith, e)) refl)
]

start-Change :
    (n : Option Text) (l : Lock) (old : Task)
    → l.acquiring ≡ false
    → Change l old (try_lock n (announce n l)).0 (try_lock n (announce n l)).1
unfolding announce
start-Change (some k) l old free = try_named l old k
start-Change none l old free = try_global l _ old (inl free) refl

first_loop-Change :
    (b : Bool) (n : Option Text) (l : Lock) (old : Task)
    → l.acquiring ≡ b
    → let r = if b then (l, entering n) else try_lock n (announce n l) in Change l old r.0 r.1
first_loop-Change true n l old e = enters n refl refl
first_loop-Change false n l old e = start-Change n l old e

pub enter-Change :
    (n : Option Text) (l : Lock) (old : Task) → Change l old (enter n l).0 (enter n l).1
unfolding enter
enter-Change n l old = first_loop-Change l.acquiring n l old refl

pub resume-Change :
    (t : Task) (l : Lock)
    → (t ≡ waiting none → l.acquiring ≡ true)
    → Change l t (resume t l).0 (resume t l).1
unfolding resume
resume-Change idle l h = stays refl refl
resume-Change (entering n) l h = enter-Change n l (entering n)
resume-Change (waiting (some k)) l h = try_named l (waiting (some k)) k
resume-Change (waiting none) l h = try_global l l (waiting none) (inr refl) (ground (arith, h refl))
resume-Change (holding n) l h = stays refl refl

pub release-Change :
    (n : Option Text) (l : Lock) (old : Task) → old ≡ holding n → Change l old (release n l) idle
unfolding release
release-Change (some k) l old h = leaves_named k h refl refl
release-Change none l old h = leaves_global h refl refl
