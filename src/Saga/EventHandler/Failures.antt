-- ===== src/Saga/EventHandler/Failures.antt =====
-- What a failed restoration leaves in the cache of src/SagaEventHandler.ts.
use node_cqrs.Common.{◌≡◌, refl, ap, ◌∙◌, false, some, Text}
use node_cqrs.Messages.{Event, ok, err, Error}
use node_cqrs.Utils.MapAssertable.{has_key}
use node_cqrs.Utils.MapAssertable.Laziness.{IsReady, assert_fresh, assert-IsReady}
use node_cqrs.Utils.SagaId.{make_saga_id}
use node_cqrs.Saga.EventHandler.{
  Settings, Handler, Place, place, make_saga, run_saga, handle, handle_as,
}

module _ {W S A : Type 0} (t : Settings W S A) where
  -- The cached saga is a rejected promise.
  abbrev pub IsPoisoned : Text → Error → Handler W S A → Type 0
  IsPoisoned id x h = IsReady id (err x) h.cache

  -- An event whose saga is cached as a rejected promise fails with the cached error, leaves the
  -- world alone and the cache as rejecting as it was.
  IsPoisoned-handle :
      (e : Event A) (p : Place) (id : Text) (x : Error) (h : Handler W S A)
      → place t e ≡ ok p
      → make_saga_id t.saga_descriptor p.origin ≡ ok id
      → IsPoisoned id x h
      → ((handle t e h).0 ≡ err x)
        × ((handle t e h).1.world ≡ h.world)
        × IsPoisoned id x (handle t e h).1
  unfolding handle handle_as run_saga
  IsPoisoned-handle e p id x h hp hi ready =
      rw (hp, handle_as, hi, assert-IsReady id (err x) (make_saga t p id e) h.cache h.world ready)
        (refl, refl, record { present = ready.present; settled = ready.settled })

  poisons :
      (e : Event A) (p : Place) (id : Text) (x : Error) (h : Handler W S A) (w' : W)
      → place t e ≡ ok p
      → make_saga_id t.saga_descriptor p.origin ≡ ok id
      → has_key h.cache id ≡ false
      → make_saga t p id e h.world ≡ (err x, w')
      → ((handle t e h).0 ≡ err x) × IsPoisoned id x (handle t e h).1
  unfolding handle handle_as run_saga
  poisons e p id x h w' hp hi fresh fails =
      let (ready, value) = assert_fresh id (make_saga t p id e) h.cache h.world fresh in
      let value' = value ∙ ap (λ r. some r.0) fails in
      rw (hp, handle_as, hi, value')
        (
          refl,
          record { present = ready.present ∙ ap (λ r. some r.0) fails; settled = ready.settled },
        )

  -- When a saga is not in the cache and restoring it fails, the event fails with that error, and
  -- it sticks: a later event of the same saga fails with it too and leaves the world as it is,
  -- whatever the world has become by then, so the saga is not restored again.
  pub failed_restore_sticks :
      (e e2 : Event A) (p p2 : Place) (id : Text) (x : Error) (h : Handler W S A) (w' u : W)
      → place t e ≡ ok p
      → make_saga_id t.saga_descriptor p.origin ≡ ok id
      → has_key h.cache id ≡ false
      → make_saga t p id e h.world ≡ (err x, w')
      → place t e2 ≡ ok p2
      → make_saga_id t.saga_descriptor p2.origin ≡ ok id
      → ((handle t e h).0 ≡ err x)
        × ((handle t e2 (record (handle t e h).1 { world = u })).0 ≡ err x)
        × ((handle t e2 (record (handle t e h).1 { world = u })).1.world ≡ u)
  failed_restore_sticks e e2 p p2 id x h w' u hp hi fresh fails hp2 hi2 =
      let (first, poisoned) = poisons e p id x h w' hp hi fresh fails in
      let later =
        IsPoisoned-handle e2 p2 id x (record (handle t e h).1 { world = u }) hp2 hi2 poisoned in
      (first, later.0, later.1)
