-- ===== src/Workers/Batches.antt =====
-- What src/workers/WorkerProxyProjection.ts projects while it restores, against the loop of src/AbstractProjection.ts.
use node_cqrs.Common.{
  leb, [], ◌∷◌, ◌++◌, append-nil, append_assoc, ℕ, ◌≡◌, refl, sym, ap, ◌∙◌, Bool, true, false,
  Option, none, some, List,
}
use node_cqrs.Common.Lists.{length}
use node_cqrs.Messages.{Event, Result, ok, err}
use node_cqrs.Projection as Main
use node_cqrs.Projection.{Settings, and_then, project_now, project_all, last_event, mark_last}
use node_cqrs.Workers.ProxyProjection.{
  ProxySettings, project_batch, project_if_full, project_remaining, project_in_batches, restore_now,
  get_last_projected_event,
}

-- The last event of a list, or the one before it
abbrev pub last_of : {A : Type 0} → Option (Event A) → List (Event A) → Option (Event A)
last_of last [] = last
last_of last (e ∷ es) = last_of (some e) es

module _ {W A : Type 0} (t : Settings W A) where
  and_then_assoc :
      {X Y Z : Type 0} (f : X → W → Result Y × W) (g : Y → W → Result Z × W) (r : Result X × W)
      → and_then g (and_then f r) ≡ and_then (λ x w. and_then g (f x w)) r
  unfolding and_then
  and_then_assoc f g (ok x, w) = refl
  and_then_assoc f g (err e, w) = refl

  project_batch-append :
      (es fs : List (Event A)) (w : W)
      → project_batch t (es ++ fs) w ≡ and_then (λ u. project_batch t fs) (project_batch t es w)
  unfolding project_batch and_then
  project_batch-append [] fs w = refl
  project_batch-append (e ∷ es) fs w =
      (λ i. and_then (λ u w'. project_batch-append es fs w' i) (project_now t e w))
      ∙ sym (and_then_assoc (λ u. project_batch t es) (λ u. project_batch t fs) (project_now t e w))

  project_remaining_lem :
      (batch : List (Event A)) (w : W) → project_remaining t batch w ≡ project_batch t batch w
  unfolding project_remaining project_batch
  project_remaining_lem [] w = refl
  project_remaining_lem (e ∷ es) w = refl

  project_if_full_lem :
      (full : Bool) (batch es : List (Event A)) (w : W)
      → and_then (λ rest. project_batch t (rest ++ es)) (project_if_full t full batch w)
        ≡ project_batch t (batch ++ es) w
  unfolding and_then project_if_full
  project_if_full_lem false batch es w = refl
  project_if_full_lem true batch es w =
      and_then_assoc (λ u w. (ok [], w)) (λ rest. project_batch t (rest ++ es))
        (project_batch t batch w)
      ∙ sym (project_batch-append batch es w)

  project_in_batches_lem :
      (size : ℕ) (es batch : List (Event A)) (w : W)
      → project_in_batches t size es batch w ≡ project_batch t (batch ++ es) w
  unfolding project_in_batches
  project_in_batches_lem size [] batch w =
      project_remaining_lem batch w ∙ ap (λ l. project_batch t l w) (sym (append-nil batch))
  project_in_batches_lem size (e ∷ es) batch w =
      (λ i.
        and_then (λ rest w'. project_in_batches_lem size es rest w' i)
          (project_if_full t (leb size (length (batch ++ e ∷ []))) (batch ++ e ∷ []) w))
      ∙ project_if_full_lem (leb size (length (batch ++ e ∷ []))) (batch ++ e ∷ []) es w
      ∙ ap (λ l. project_batch t l w) (append_assoc batch (e ∷ []) es)

  project_all_lem :
      (es : List (Event A)) (last : Option (Event A)) (w : W)
      → project_all t es last w
        ≡ and_then (λ u w'. (ok (last_of last es), w')) (project_batch t es w)
  unfolding project_all project_batch and_then
  project_all_lem [] last w = refl
  project_all_lem (e ∷ es) last w =
      (λ i. and_then (λ u w'. project_all_lem es (some e) w' i) (project_now t e w))
      ∙ sym (
          and_then_assoc (λ u. project_batch t es) (λ u w'. (ok (last_of (some e) es), w'))
            (project_now t e w))

module _ {W A : Type 0} where
  read_events-remote :
      (p : ProxySettings W A) (w : W)
      → p.message_types ≡ p.remote.handles
      → p.get_events_by_types ≡ p.remote.get_events_by_types
      → and_then (p.get_events_by_types p.message_types) (get_last_projected_event p.remote w)
        ≡ and_then
            (p.remote.get_events_by_types p.remote.handles)
            (last_event p.remote p.remote.event_locker w)
  unfolding get_last_projected_event
  read_events-remote p w types reads i =
      and_then (reads i (types i)) (last_event p.remote p.remote.event_locker w)

  restore_now_lem :
      (p : ProxySettings W A) (events : List (Event A)) (w w1 : W)
      → p.message_types ≡ p.remote.handles
      → p.get_events_by_types ≡ p.remote.get_events_by_types
      → and_then
          (p.remote.get_events_by_types p.remote.handles)
          (last_event p.remote p.remote.event_locker w)
        ≡ (ok events, w1)
      → restore_now p w ≡ project_batch p.remote events w1
  unfolding restore_now and_then
  restore_now_lem p events w w1 types reads returned =
      ap
        (λ (r : Result (List (Event A)) × W).
          and_then (λ es. project_in_batches p.remote p.restore_batch_size es []) r)
        (read_events-remote p w types reads ∙ returned)
      ∙ project_in_batches_lem p.remote p.restore_batch_size events [] w1

  -- A projection behind a worker is restored as in the main thread, but for the last checkpoint: if the proxy asks for the types that the
  -- projection handles, from the same store, and the store returns the events, then restoring in the main thread
  -- does what the proxy does, whatever its batch size, and marks the last of the events afterwards. Each event is projected once, in order,
  -- and the first failure ends both.
  pub restore_now-batched :
      (p : ProxySettings W A) (events : List (Event A)) (w w1 : W)
      → p.message_types ≡ p.remote.handles
      → p.get_events_by_types ≡ p.remote.get_events_by_types
      → and_then
          (p.remote.get_events_by_types p.remote.handles)
          (last_event p.remote p.remote.event_locker w)
        ≡ (ok events, w1)
      → Main.restore_now p.remote w
        ≡ and_then
            (λ u. mark_last p.remote p.remote.event_locker (last_of none events))
            (restore_now p w)
  unfolding restore_now Main.restore_now and_then
  restore_now-batched p events w w1 types reads returned =
      let mark = mark_last p.remote p.remote.event_locker in
      ap
        (λ (r : Result (List (Event A)) × W).
          and_then mark (and_then (λ es. project_all p.remote es none) r))
        returned
      ∙ ap (and_then mark) (project_all_lem p.remote events none w1)
      ∙ and_then_assoc p.remote (λ u w'. (ok (last_of none events), w')) mark
          (project_batch p.remote events w1)
      ∙ ap (and_then (λ u. mark (last_of none events)))
          (sym (restore_now_lem p events w w1 types reads returned))
