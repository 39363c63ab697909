-- ===== src/Utils/Lock/Invariant.antt =====
-- The invariant of the lock and its tasks, and that every step keeps it.
use node_cqrs.Common.{
  ℕ, ◌≡◌, refl, true, Option, none, some, [], Text, erase, has, arith, text_eq_iff, lookup-insert,
  lookup-erase,
}
use node_cqrs.Utils.Lock.{
  Lock, Task, idle, waiting, holding, lock_key, enter, resume, release, System, update, after, init,
  Step, acquires, resumes, releases, Reach, here, next,
}
use node_cqrs.Utils.Lock.Change.{
  Change, stays, enters, waits, announces, takes_named, takes_global, leaves_named, leaves_global,
  enter-Change, resume-Change, release-Change,
}

pub record IsSafe (s : System) : Type 0 where
  pub held_named : (i : ℕ) (k : Text) → s.tasks i ≡ holding (some k) → has k s.lock.named ≡ true
  pub held_global : (i : ℕ) → s.tasks i ≡ holding none → s.lock.global ≡ true
  pub one_holder :
      (i j : ℕ) (n : Option Text) → s.tasks i ≡ holding n → s.tasks j ≡ holding n → i ≡ j
  pub alone : s.lock.global ≡ true → s.lock.named ≡ []
  pub announced : (i : ℕ) → s.tasks i ≡ waiting none → s.lock.acquiring ≡ true
  pub announced_once : (i j : ℕ) → s.tasks i ≡ waiting none → s.tasks j ≡ waiting none → i ≡ j

module _ (s : System) (i : ℕ) (v : IsSafe s) (l' : Lock) (new : Task) where
  keep_held_named :
      Change s.lock (s.tasks i) l' new
      → (j : ℕ) (k : Text) → update s.tasks i new j ≡ holding (some k)
      → has k l'.named ≡ true
  unfolding has
  keep_held_named (stays p q) j k h =
      ground (arith, v.held_named i k, v.held_named j k, v.one_holder i j (some k))
  keep_held_named (enters m p q) j k h =
      ground (arith, v.held_named i k, v.held_named j k, v.one_holder i j (some k))
  keep_held_named (waits m p q) j k h =
      ground (arith, v.held_named i k, v.held_named j k, v.one_holder i j (some k))
  keep_held_named (announces o p q) j k h =
      ground (arith, v.held_named i k, v.held_named j k, v.one_holder i j (some k))
  keep_held_named (takes_named m g f p q) j k h = ground (
    arith,
    lookup-insert m k tt s.lock.named,
    text_eq_iff m k,
    v.held_named i k,
    v.held_named j k,
    v.one_holder i j (some k),
  )
  keep_held_named (takes_global g f o p q) j k h =
      ground (arith, v.held_named i k, v.held_named j k, v.one_holder i j (some k))
  keep_held_named (leaves_named m o p q) j k h = ground (
    arith,
    lookup-erase m k s.lock.named,
    text_eq_iff m k,
    v.held_named i k,
    v.held_named j k,
    v.one_holder i j (some k),
  )
  keep_held_named (leaves_global o p q) j k h =
      ground (arith, v.held_named i k, v.held_named j k, v.one_holder i j (some k))

  keep_held_global :
      Change s.lock (s.tasks i) l' new
      → (j : ℕ) → update s.tasks i new j ≡ holding none
      → l'.global ≡ true
  keep_held_global (stays p q) j h =
      ground (arith, v.held_global i, v.held_global j, v.one_holder i j none)
  keep_held_global (enters m p q) j h =
      ground (arith, v.held_global i, v.held_global j, v.one_holder i j none)
  keep_held_global (waits m p q) j h =
      ground (arith, v.held_global i, v.held_global j, v.one_holder i j none)
  keep_held_global (announces o p q) j h =
      ground (arith, v.held_global i, v.held_global j, v.one_holder i j none)
  keep_held_global (takes_named m g f p q) j h =
      ground (arith, v.held_global i, v.held_global j, v.one_holder i j none)
  keep_held_global (takes_global g f o p q) j h =
      ground (arith, v.held_global i, v.held_global j, v.one_holder i j none)
  keep_held_global (leaves_named m o p q) j h =
      ground (arith, v.held_global i, v.held_global j, v.one_holder i j none)
  keep_held_global (leaves_global o p q) j h =
      ground (arith, v.held_global i, v.held_global j, v.one_holder i j none)

  keep_one_holder :
      Change s.lock (s.tasks i) l' new
      → (j k : ℕ) (n : Option Text) → update s.tasks i new j ≡ holding n
      → update s.tasks i new k ≡ holding n
      → j ≡ k
  unfolding has
  keep_one_holder (stays p q) j k n h h' =
      ground (arith, v.one_holder i j n, v.one_holder i k n, v.one_holder j k n)
  keep_one_holder (enters m p q) j k n h h' =
      ground (arith, v.one_holder i j n, v.one_holder i k n, v.one_holder j k n)
  keep_one_holder (waits m p q) j k n h h' =
      ground (arith, v.one_holder i j n, v.one_holder i k n, v.one_holder j k n)
  keep_one_holder (announces o p q) j k n h h' =
      ground (arith, v.one_holder i j n, v.one_holder i k n, v.one_holder j k n)
  keep_one_holder (takes_named m g f p q) j k n h h' = ground (
    arith,
    v.held_named j m,
    v.held_named k m,
    v.one_holder i j n,
    v.one_holder i k n,
    v.one_holder j k n,
  )
  keep_one_holder (takes_global g f o p q) j k n h h' = ground (
    arith,
    v.held_global j,
    v.held_global k,
    v.one_holder i j n,
    v.one_holder i k n,
    v.one_holder j k n,
  )
  keep_one_holder (leaves_named m o p q) j k n h h' =
      ground (arith, v.one_holder i j n, v.one_holder i k n, v.one_holder j k n)
  keep_one_holder (leaves_global o p q) j k n h h' =
      ground (arith, v.one_holder i j n, v.one_holder i k n, v.one_holder j k n)

  keep_alone : Change s.lock (s.tasks i) l' new → l'.global ≡ true → l'.named ≡ []
  unfolding erase
  keep_alone (stays p q) h = ground (arith, v.alone)
  keep_alone (enters m p q) h = ground (arith, v.alone)
  keep_alone (waits m p q) h = ground (arith, v.alone)
  keep_alone (announces o p q) h = ground (arith, v.alone)
  keep_alone (takes_named m g f p q) h = ground (arith, v.alone)
  keep_alone (takes_global g f o p q) h = ground (arith, v.alone)
  keep_alone (leaves_named m o p q) h = ground (arith, v.alone)
  keep_alone (leaves_global o p q) h = ground (arith, v.alone)

  keep_announced :
      Change s.lock (s.tasks i) l' new
      → (j : ℕ) → update s.tasks i new j ≡ waiting none
      → l'.acquiring ≡ true
  keep_announced (stays p q) j h =
      ground (arith, v.announced i, v.announced j, v.announced_once i j)
  keep_announced (enters m p q) j h =
      ground (arith, v.announced i, v.announced j, v.announced_once i j)
  keep_announced (waits m p q) j h =
      ground (arith, v.announced i, v.announced j, v.announced_once i j)
  keep_announced (announces o p q) j h =
      ground (arith, v.announced i, v.announced j, v.announced_once i j)
  keep_announced (takes_named m g f p q) j h =
      ground (arith, v.announced i, v.announced j, v.announced_once i j)
  keep_announced (takes_global g f o p q) j h =
      ground (arith, v.announced i, v.announced j, v.announced_once i j)
  keep_announced (leaves_named m o p q) j h =
      ground (arith, v.announced i, v.announced j, v.announced_once i j)
  keep_announced (leaves_global o p q) j h =
      ground (arith, v.announced i, v.announced j, v.announced_once i j)

  keep_announced_once :
      Change s.lock (s.tasks i) l' new
      → (j k : ℕ) → update s.tasks i new j ≡ waiting none
      → update s.tasks i new k ≡ waiting none
      → j ≡ k
  keep_announced_once (stays p q) j k h h' = ground (
    arith,
    v.announced j,
    v.announced k,
    v.announced_once i j,
    v.announced_once i k,
    v.announced_once j k,
  )
  keep_announced_once (enters m p q) j k h h' = ground (
    arith,
    v.announced j,
    v.announced k,
    v.announced_once i j,
    v.announced_once i k,
    v.announced_once j k,
  )
  keep_announced_once (waits m p q) j k h h' = ground (
    arith,
    v.announced j,
    v.announced k,
    v.announced_once i j,
    v.announced_once i k,
    v.announced_once j k,
  )
  keep_announced_once (announces o p q) j k h h' = ground (
    arith,
    v.announced j,
    v.announced k,
    v.announced_once i j,
    v.announced_once i k,
    v.announced_once j k,
  )
  keep_announced_once (takes_named m g f p q) j k h h' = ground (
    arith,
    v.announced j,
    v.announced k,
    v.announced_once i j,
    v.announced_once i k,
    v.announced_once j k,
  )
  keep_announced_once (takes_global g f o p q) j k h h' = ground (
    arith,
    v.announced j,
    v.announced k,
    v.announced_once i j,
    v.announced_once i k,
    v.announced_once j k,
  )
  keep_announced_once (leaves_named m o p q) j k h h' = ground (
    arith,
    v.announced j,
    v.announced k,
    v.announced_once i j,
    v.announced_once i k,
    v.announced_once j k,
  )
  keep_announced_once (leaves_global o p q) j k h h' = ground (
    arith,
    v.announced j,
    v.announced k,
    v.announced_once i j,
    v.announced_once i k,
    v.announced_once j k,
  )

Change-IsSafe :
    (s : System) (i : ℕ) (r : Lock × Task)
    → IsSafe s
    → Change s.lock (s.tasks i) r.0 r.1
    → IsSafe (after s i r)
Change-IsSafe s i (l', new) v c = record {
  held_named = keep_held_named s i v l' new c;
  held_global = keep_held_global s i v l' new c;
  one_holder = keep_one_holder s i v l' new c;
  alone = keep_alone s i v l' new c;
  announced = keep_announced s i v l' new c;
  announced_once = keep_announced_once s i v l' new c;
}

Step-IsSafe : {s u : System} → IsSafe s → Step s u → IsSafe u
Step-IsSafe {s} v (acquires i name e) =
    Change-IsSafe s i (enter (lock_key name) s.lock) v
      (enter-Change (lock_key name) s.lock (s.tasks i))
Step-IsSafe {s} v (resumes i) =
    Change-IsSafe s i (resume (s.tasks i) s.lock) v
      (resume-Change (s.tasks i) s.lock (v.announced i))
Step-IsSafe {s} v (releases i n e) =
    Change-IsSafe s i (release n s.lock, idle) v (release-Change n s.lock (s.tasks i) e)

init-IsSafe : IsSafe init
init-IsSafe = record {
  held_named = λ i k h. absurd (cc h);
  held_global = λ i h. absurd (cc h);
  one_holder = λ i j n h k. absurd (cc h);
  alone = λ h. refl;
  announced = λ i h. absurd (cc h);
  announced_once = λ i j h k. absurd (cc h);
}

pub Reach-IsSafe : {s : System} → Reach init s → IsSafe s
Reach-IsSafe here = init-IsSafe
Reach-IsSafe (next r st) = Step-IsSafe (Reach-IsSafe r) st
