-- ===== src/Projection/Once.antt =====
-- How often a projection of src/AbstractProjection.ts projects an event.
use node_cqrs.Common.{◌≡◌, refl, sym, ap, ◌∙◌, true, false, some, Bool-cases, inl, inr, subst}
use node_cqrs.Messages.{Event, Result, ok, err}
use node_cqrs.Aggregate.{get_optional_handler}
use node_cqrs.Projection.{
  Settings, EventLocker, and_then, project_now, handled, if_obtained, record_last,
}

-- What the event locker promises: once an event is marked as projected it is refused, and
-- another checkpoint does not change that.
pub record IsFaithful {W A : Type 0} (locker : EventLocker W A) (IsMarked : Event A → W → Type 0)
    : Type 0 where
  pub refuses :
      (e : Event A) (w : W) → IsMarked e w → locker.try_mark_as_projecting e w ≡ (ok false, w)
  pub marks : (e : Event A) (w w' : W) → locker.mark_as_projected e w ≡ (ok tt, w') → IsMarked e w'
  pub keeps :
      (e last : Event A) (w w' : W)
      → locker.mark_as_last_event last w ≡ (ok tt, w')
      → IsMarked e w
      → IsMarked e w'

and_then_ok :
    {W X Y : Type 0} (f : X → W → Result Y × W) (r : Result X × W) (y : Y) (w : W)
    → and_then f r ≡ (ok y, w)
    → (x : X) × (w' : W) × (r ≡ (ok x, w')) × (f x w' ≡ (ok y, w))
unfolding and_then
and_then_ok f (ok x, w') y w h = (x, w', refl, h)
and_then_ok f (err e, w') y w h = absurd (cc h)

module _ {W A : Type 0} (t : Settings W A) (locker : EventLocker W A)
    (IsMarked : Event A → W → Type 0) where
  record_last-IsMarked :
      (faithful : IsFaithful locker IsMarked) (e : Event A) (w w' : W)
      → record_last t locker e tt w ≡ (ok tt, w')
      → IsMarked e w
      → IsMarked e w'
  unfolding record_last
  record_last-IsMarked faithful e w w' h m = elim (Bool-cases (t.should_record_last_event e)) [
    | inl set ↦ faithful.keeps e e w w' (sym (opened set) ∙ h) m
    | inr unset ↦ subst (IsMarked e) (ap (λ p. p.1) (sym (closed unset) ∙ h)) m
  ]
    where
      opened :
          t.should_record_last_event e ≡ true
          → record_last t locker e tt w ≡ locker.mark_as_last_event e w
      opened set = rw (record_last, set) refl

      closed : t.should_record_last_event e ≡ false → record_last t locker e tt w ≡ (ok tt, w)
      closed unset = rw (record_last, unset) refl

  obtained-IsMarked :
      (faithful : IsFaithful locker IsMarked) (e : Event A) (w w' : W)
      (handler : Event A → W → Result (Unit {0}) × W)
      → if_obtained t locker handler e true w ≡ (ok tt, w')
      → IsMarked e w'
  unfolding if_obtained
  obtained-IsMarked faithful e w w' handler h =
      let (u, w1, projected, recorded) =
        and_then_ok (record_last t locker e)
          (and_then (λ u. locker.mark_as_projected e) (handler e w)) tt w' h in
      let (v, w2, handled, marked) =
        and_then_ok (λ u. locker.mark_as_projected e) (handler e w) tt w1 projected in
      record_last-IsMarked faithful e w1 w' recorded (faithful.marks e w2 w1 marked)

  project_now_locked :
      (e : Event A) (w : W) (handler : Event A → W → Result (Unit {0}) × W)
      → t.event_locker ≡ some locker
      → get_optional_handler t.handlers e.type ≡ ok (some handler)
      → project_now t e w
        ≡ and_then (if_obtained t locker handler e) (locker.try_mark_as_projecting e w)
  unfolding project_now handled
  project_now_locked e w handler has found =
      ap (λ o. handled t o (get_optional_handler t.handlers e.type) e w) has
      ∙ ap (λ r. handled t (some locker) r e w) found

  opened :
      (w : W) (handler : Event A → W → Result (Unit {0}) × W) (e : Event A)
      → and_then (if_obtained t locker handler e) (ok true, w)
        ≡ if_obtained t locker handler e true w
  unfolding and_then
  opened w handler e = refl

  skipped :
      (w : W) (handler : Event A → W → Result (Unit {0}) × W) (e : Event A)
      → and_then (if_obtained t locker handler e) (ok false, w) ≡ (ok tt, w)
  unfolding and_then if_obtained
  skipped w handler e = refl

  -- What a projection that had the event and returned leaves behind.
  pub project_now-IsMarked :
      (faithful : IsFaithful locker IsMarked) (e : Event A) (w w0 w1 : W)
      (handler : Event A → W → Result (Unit {0}) × W)
      → t.event_locker ≡ some locker
      → get_optional_handler t.handlers e.type ≡ ok (some handler)
      → locker.try_mark_as_projecting e w ≡ (ok true, w0)
      → project_now t e w ≡ (ok tt, w1)
      → IsMarked e w1
  project_now-IsMarked faithful e w w0 w1 handler has found obtained done =
      let first =
        project_now_locked e w handler has found
        ∙ ap (and_then (if_obtained t locker handler e)) obtained in
      obtained-IsMarked faithful e w0 w1 handler (sym (first ∙ opened w0 handler e) ∙ done)

  pub project_now-marked :
      (faithful : IsFaithful locker IsMarked) (e : Event A) (w : W)
      (handler : Event A → W → Result (Unit {0}) × W)
      → t.event_locker ≡ some locker
      → get_optional_handler t.handlers e.type ≡ ok (some handler)
      → IsMarked e w
      → project_now t e w ≡ (ok tt, w)
  project_now-marked faithful e w handler has found marked =
      project_now_locked e w handler has found
      ∙ ap (and_then (if_obtained t locker handler e)) (faithful.refuses e w marked)
      ∙ skipped w handler e

  -- An event that has been projected is not projected again: if the locker let a projection have the
  -- event and the projection then returned, projecting the event a second time returns
  -- and does nothing, its handler is not called.
  pub project_once :
      (faithful : IsFaithful locker IsMarked) (e : Event A) (w w0 w1 : W)
      (handler : Event A → W → Result (Unit {0}) × W)
      → t.event_locker ≡ some locker
      → get_optional_handler t.handlers e.type ≡ ok (some handler)
      → locker.try_mark_as_projecting e w ≡ (ok true, w0)
      → project_now t e w ≡ (ok tt, w1)
      → project_now t e w1 ≡ (ok tt, w1)
  project_once faithful e w w0 w1 handler has found obtained done =
      project_now-marked faithful e w1 handler has found
        (project_now-IsMarked faithful e w w0 w1 handler has found obtained done)
