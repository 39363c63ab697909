-- ===== src/Utils/Lock/Exclusion.antt =====
-- No two tasks hold locks that exclude one another.
use node_cqrs.Common.{
  ℕ, ◌≡◌, ◌≢◌, refl, true, Option, none, some, Text, has, arith, inl, inr, ◌⊎◌, lookup,
}
use node_cqrs.Utils.Lock.{
  Lock, Task, idle, entering, waiting, holding, lock_key, enter, resume, System, update, init, Step,
  acquires, resumes, releases, Reach,
}
use node_cqrs.Utils.Lock.Invariant.{IsSafe, Reach-IsSafe}

IsSafe-exclusive :
    (s : System) (i j : ℕ) (m n : Option Text)
    → IsSafe s
    → i ≢ j
    → s.tasks i ≡ holding m
    → s.tasks j ≡ holding n
    → (k : Text) × (l : Text) × (m ≡ some k) × (n ≡ some l) × (k ≢ l)
unfolding has lookup
IsSafe-exclusive s i j none none v d h g = absurd (d (v.one_holder i j none h g))
IsSafe-exclusive s i j none (some l) v d h g =
    absurd (ground (arith, v.held_global i h, v.alone, v.held_named j l g))
IsSafe-exclusive s i j (some k) none v d h g =
    absurd (ground (arith, v.held_global j g, v.alone, v.held_named i k h))
IsSafe-exclusive s i j (some k) (some l) v d h g =
    (k, l, refl, refl, λ e. d (v.one_holder i j (some k) h (rw e g)))

-- In every interleaving of the tasks: where two tasks have locks at once, both locks are named and
-- the names differ. So no two tasks have one named lock, and a task with the global lock is alone.
pub Reach-exclusive :
    (s : System) (i j : ℕ) (m n : Option Text)
    → Reach init s
    → i ≢ j
    → s.tasks i ≡ holding m
    → s.tasks j ≡ holding n
    → (k : Text) × (l : Text) × (m ≡ some k) × (n ≡ some l) × (k ≢ l)
Reach-exclusive s i j m n r d h g = IsSafe-exclusive s i j m n (Reach-IsSafe r) d h g

-- A task of the updated system is the one that moved, or one that did not.
moved :
    (tasks : ℕ → Task) (i j : ℕ) (new t : Task)
    → update tasks i new j ≡ t
    → ((j ≡ i) × (new ≡ t)) ⊎ (tasks j ≡ t)
moved tasks i j new t h = ground arith

enter_busy : (n : Option Text) (l : Lock) → l.acquiring ≡ true → (enter n l).1 ≡ entering n
unfolding enter
enter_busy n l h = ground (arith, h)

-- What a resumed task was, if it then has a lock while the global one is being acquired.
resumed_holder :
    (t : Task) (l : Lock) (n : Option Text)
    → l.acquiring ≡ true
    → (resume t l).1 ≡ holding n
    → (t ≡ holding n) ⊎ (t ≡ waiting none) ⊎ ((k : Text) × (t ≡ waiting (some k)))
unfolding resume
resumed_holder idle l n h g = absurd (cc g)
resumed_holder (entering m) l n h g = absurd (cc (enter_busy m l h, g))
resumed_holder (waiting none) l n h g = inr (inl refl)
resumed_holder (waiting (some k)) l n h g = inr (inr (k, refl))
resumed_holder (holding m) l n h g = inl g

-- While a task waits for the global lock at the second loop, no step gives a lock to any other
-- task, except one that was past the first loop before and waits for a name.
pub no_overtaking :
    (s u : System) (i j : ℕ) (n : Option Text)
    → Reach init s
    → s.tasks i ≡ waiting none
    → Step s u
    → u.tasks j ≡ holding n
    → (s.tasks j ≡ holding n) ⊎ (j ≡ i) ⊎ ((k : Text) × (s.tasks j ≡ waiting (some k)))
no_overtaking s u i j n r w (acquires i' name e) h =
    elim (moved s.tasks i' j (enter (lock_key name) s.lock).1 (holding n) h) [
      | inl (same, new) ↦
          absurd (cc (enter_busy (lock_key name) s.lock ((Reach-IsSafe r).announced i w), new))
      | inr old ↦ inl old
    ]
no_overtaking s u i j n r w (resumes i') h =
    let v = Reach-IsSafe r in
    elim (moved s.tasks i' j (resume (s.tasks i') s.lock).1 (holding n) h) [
      | inl (same, new) ↦
          rw same (elim (resumed_holder (s.tasks i') s.lock n (v.announced i w) new) [
            | inl old ↦ inl old
            | inr (inl other) ↦ inr (inl (v.announced_once i' i other w))
            | inr (inr named) ↦ inr (inr named)
          ])
      | inr old ↦ inl old
    ]
no_overtaking s u i j n r w (releases i' m e) h = elim (moved s.tasks i' j idle (holding n) h) [
  | inl (same, new) ↦ absurd (cc new)
  | inr old ↦ inl old
]
