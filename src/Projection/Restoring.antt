-- ===== src/Projection/Restoring.antt =====
-- When a view of src/AbstractProjection.ts is ready.
use node_cqrs.Common.{◌≡◌, refl, sym, ap, subst, ◌∙◌, true, false, some}
use node_cqrs.Messages.{Result, ok, err, Error}
use node_cqrs.Projection.{
  Settings, ViewLocker, and_then, restore, restore_now, lock_view, unlock_view,
}

module _ {W A : Type 0} (t : Settings W A) (locker : ViewLocker W) where
  restore_locked :
      (w w0 : W)
      → t.view_locker ≡ some locker
      → locker.lock w ≡ (ok tt, w0)
      → restore t w ≡ and_then (λ u w. (ok tt, locker.unlock w)) (restore_now t w0)
  unfolding restore lock_view unlock_view and_then
  restore_locked w w0 has locks =
      ap (λ o. and_then (unlock_view t o) (and_then (λ u. restore_now t) (lock_view t o w))) has
      ∙ ap (λ r. and_then (unlock_view t (some locker)) (and_then (λ u. restore_now t) r)) locks

  Ready : Result (Unit {0}) → Result (Unit {0}) × W → Type 0
  Ready r (r', w) =
      (r' ≡ r)
      × (r' ≡ ok tt → locker.ready w ≡ true)
      × ((x : Error) → r' ≡ err x → locker.ready w ≡ false)

  unlocked-Ready :
      (r : Result (Unit {0}) × W)
      → locker.ready r.1 ≡ false
      → ((u : W) → locker.ready (locker.unlock u) ≡ true)
      → Ready r.0 (and_then (λ u w. (ok tt, locker.unlock w)) r)
  unfolding and_then Ready
  unlocked-Ready (ok u, w) locked unlocks = (refl, λ h. unlocks w, λ x h. absurd (cc h))
  unlocked-Ready (err e, w) locked unlocks = (refl, λ h. absurd (cc h), λ x h. locked)

  -- A view whose restoring fails stays locked: if the locker locks and unlocks, and what is done
  -- while restoring leaves the lock alone, the view is ready after `restore` exactly if it returned.
  pub restore_ready :
      (w w0 : W)
      → t.view_locker ≡ some locker
      → locker.lock w ≡ (ok tt, w0)
      → locker.ready w0 ≡ false
      → ((u : W) → locker.ready (restore_now t u).1 ≡ locker.ready u)
      → ((u : W) → locker.ready (locker.unlock u) ≡ true)
      → ((restore t w).0 ≡ (restore_now t w0).0)
        × ((restore t w).0 ≡ ok tt → locker.ready (restore t w).1 ≡ true)
        × ((x : Error) → (restore t w).0 ≡ err x → locker.ready (restore t w).1 ≡ false)
  unfolding Ready
  restore_ready w w0 has locks locked keeps unlocks =
      subst (Ready (restore_now t w0).0) (sym (restore_locked w w0 has locks))
        (unlocked-Ready (restore_now t w0) (keeps w0 ∙ locked) unlocks)
