-- ===== src/Dispatch/Dispatcher/Routing.antt =====
-- Which pipeline of src/EventDispatcher.ts gets a batch.
use node_cqrs.Common.{
  ◌≡◌, refl, ap, sym, ◌∙◌, true, false, [], ◌∷◌, ◌++◌, append-nil, append_assoc, truthy, Option,
  none, some, List, Text, Assoc, lookup, insert, lookup-insert, has, if◌then◌else◌, text_eq,
  text_eq_sound, Bool-cases, inl, inr,
}
use node_cqrs.Messages.{Event, ok}
use node_cqrs.Dispatch.Pipeline.{Processor, Pipeline, add_processor}
use node_cqrs.Dispatch.Dispatcher.{
  Dispatcher, Meta, add_pipeline, add_each, then_rest, registered, with_name, route, desired,
  default_pipeline,
}

has-none : {V : Type 0} (name : Text) (m : Assoc V) → lookup name m ≡ none → has name m ≡ false
unfolding has
has-none name m h = rw (has, h) refl

module _ {W A : Type 0} where
  add_each-fresh :
      (ps qs : List (Processor W A))
      → add_each ps (record { processors = qs; processing = false })
        ≡ (ok tt, record { processors = qs ++ ps; processing = false })
  unfolding add_each add_processor then_rest
  add_each-fresh [] qs =
      ap (λ (l : List (Processor W A)). (ok tt, record { processors = l; processing = false }))
        (sym (append-nil qs))
  add_each-fresh (p ∷ ps) qs =
      add_each-fresh ps (qs ++ p ∷ [])
      ∙ ap (λ (l : List (Processor W A)). (ok tt, record { processors = l; processing = false }))
          (append_assoc qs (p ∷ []) ps)

  abbrev pub fresh_pipeline : List (Processor W A) → Pipeline W A
  fresh_pipeline ps = record { processors = ps; processing = false }

  added :
      (name : Text) (ps : List (Processor W A)) (d : Dispatcher W A)
      → truthy name ≡ true
      → lookup name d.pipelines ≡ none
      → add_pipeline name ps d
        ≡ (ok tt, record d { pipelines = insert name (fresh_pipeline ps) d.pipelines })
  unfolding add_pipeline registered
  added name ps d named fresh =
      rw (named, has-none name d.pipelines fresh) (ap (registered name d) (add_each-fresh ps []))

  -- The pipeline of a name, or else the default one.
  pipeline_of : Text → Assoc (Pipeline W A) → Option (Text × Pipeline W A)
  unfolding with_name
  pipeline_of name m = elim (lookup name m) [
    | none ↦ with_name default_pipeline (lookup default_pipeline m)
    | some q ↦ some (name, q)
  ]

  default_kept :
      (name : Text) (q q0 : Pipeline W A) (m : Assoc (Pipeline W A))
      → lookup default_pipeline m ≡ some q0
      → lookup name m ≡ none
      → lookup default_pipeline (insert name q m) ≡ lookup default_pipeline m
  default_kept name q q0 m has_default fresh = elim (Bool-cases (text_eq name default_pipeline)) [
    | inl same ↦
        absurd
          (cc (fresh, has_default, ap (λ k. lookup k m) (text_eq_sound name default_pipeline same)))
    | inr apart ↦ rw (lookup-insert name default_pipeline q m, apart) refl
  ]

  pipeline_of-insert :
      (name wanted : Text) (q q0 : Pipeline W A) (m : Assoc (Pipeline W A))
      → lookup default_pipeline m ≡ some q0
      → lookup name m ≡ none
      → pipeline_of wanted (insert name q m)
        ≡ (if text_eq name wanted then some (wanted, q) else pipeline_of wanted m)
  unfolding pipeline_of
  pipeline_of-insert name wanted q q0 m has_default fresh =
      elim (Bool-cases (text_eq name wanted)) [
        | inl same ↦ rw (pipeline_of, lookup-insert name wanted q m, same) refl
        | inr apart ↦
            rw (pipeline_of, lookup-insert name wanted q m, apart)
              (ap
                (λ d. elim (lookup wanted m) [
                  | none ↦ with_name default_pipeline d
                  | some r ↦ some (wanted, r)
                ])
                (default_kept name q q0 m has_default fresh))
      ]

  -- Adding a pipeline changes the way of those events only for which the router asks for its name, which get
  -- it. All others go the way they went, if there is a default pipeline. The name is not empty, and new.
  pub add_pipeline-route :
      (name : Text) (ps : List (Processor W A)) (q0 : Pipeline W A) (d : Dispatcher W A)
      (events : List (Event A)) (meta : Option Meta)
      → truthy name ≡ true
      → lookup name d.pipelines ≡ none
      → lookup default_pipeline d.pipelines ≡ some q0
      → route events meta (add_pipeline name ps d).1 ≡ (
          if text_eq name (desired events meta d)
          then some (desired events meta d, fresh_pipeline ps)
          else route events meta d)
  unfolding route pipeline_of
  add_pipeline-route name ps q0 d events meta named fresh has_default =
      rw (added name ps d named fresh) (
        pipeline_of-insert name (desired events meta d) (fresh_pipeline ps) q0 d.pipelines
          has_default fresh)
