-- ===== src/InMemory/View/Bulk.antt =====
-- What the bulk operations of src/in-memory/InMemoryView.ts do to the records, in the order of the map.
use node_cqrs.Common.{
  ◌≡◌, refl, ap, ◌∙◌, Bool, true, false, Option, none, some, [], ◌∷◌, Text, Assoc, lookup, insert,
  erase, text_eq, text_eq_refl, text_eq_iff, arith, or_else, truthy,
}
use node_cqrs.Common.Lists.{All}
use node_cqrs.Messages.{Result, ok, err, ◌>>=◌}
use node_cqrs.InMemory.View.{
  if_defined, apply_update, set_updated, update_found, update_entry, delete, go_on, for_each,
  chosen, if_chosen, update_all, delete_all,
}

apart_sym : (k j : Text) → text_eq k j ≡ false → text_eq j k ≡ false
apart_sym k j h = ground (arith, h, text_eq_iff k j, text_eq_iff j k)

module _ {V : Type 0} where
  -- The keys of a map are distinct.
  abbrev pub HasDistinctKeys : Assoc V → Type 0
  HasDistinctKeys [] = Unit
  HasDistinctKeys ((k, x) ∷ es) = All (λ e. text_eq k e.0 ≡ false) es × HasDistinctKeys es

  -- An entry before the others.
  abbrev kept : Text × V → Result (Unit {0}) × Assoc V → Result (Unit {0}) × Assoc V
  kept e (r, m) = (r, e ∷ m)

  -- What a filter that may be absent says of a record.
  abbrev pub wanted : Option (V → Result Bool) → V → Result Bool
  wanted p x = elim p [ none ↦ ok true | some test ↦ test x ]

  -- What a record becomes: an update that returns nothing keeps it.
  abbrev pub new_value : (V → Result (Option V)) → V → Bool → Result V
  new_value f x false = ok x
  new_value f x true = f x >>= (λ returned. ok (or_else returned x))

  put_value :
      Text → V → Assoc V → Result V → Result (Unit {0}) × Assoc V → Result (Unit {0}) × Assoc V
  put_value k x es (err e) rest = (err e, (k, x) ∷ es)
  put_value k x es (ok y) rest = kept (k, y) rest

  -- Each record becomes its new value, up to the first for which a callback throws.
  unfoldable pub each_updated :
      Option (V → Result Bool) → (V → Result (Option V)) → Assoc V → Result (Unit {0}) × Assoc V
  unfolding put_value
  each_updated p f [] = (ok tt, [])
  each_updated p f ((k, x) ∷ es) =
      put_value k x es (wanted p x >>= new_value f x) (each_updated p f es)

  leave_out :
      Text → V → Assoc V → Result Bool → Result (Unit {0}) × Assoc V → Result (Unit {0}) × Assoc V
  leave_out k x es (err e) rest = (err e, (k, x) ∷ es)
  leave_out k x es (ok true) rest = rest
  leave_out k x es (ok false) rest = kept (k, x) rest

  -- The records that are not wanted stay, and all do from the first on for which the filter throws.
  unfoldable pub each_deleted : Option (V → Result Bool) → Assoc V → Result (Unit {0}) × Assoc V
  unfolding leave_out
  each_deleted p [] = (ok tt, [])
  each_deleted p ((k, x) ∷ es) = leave_out k x es (wanted p x) (each_deleted p es)

  chosen-wanted : (p : Option (V → Result Bool)) (x : V) → chosen p x ≡ wanted p x
  unfolding chosen
  chosen-wanted none x = refl
  chosen-wanted (some test) x = refl

  -- A step does not care for an entry of another key before the others.
  abbrev Passes : (Text → V → Assoc V → Result (Unit {0}) × Assoc V) → Type 0
  Passes step =
      (j k : Text) (x y : V) (m : Assoc V)
      → text_eq k j ≡ false
      → step j x ((k, y) ∷ m) ≡ kept (k, y) (step j x m)

  go_on-kept :
      (e : Text × V) (rest : Assoc V → Result (Unit {0}) × Assoc V)
      (q : Result (Unit {0}) × Assoc V)
      → ((m : Assoc V) → rest (e ∷ m) ≡ kept e (rest m))
      → go_on rest (kept e q) ≡ kept e (go_on rest q)
  unfolding go_on
  go_on-kept e rest (ok u, m) h = h m
  go_on-kept e rest (err x, m) h = refl

  for_each-kept :
      (step : Text → V → Assoc V → Result (Unit {0}) × Assoc V) (k : Text) (y : V) (es m : Assoc V)
      → Passes step
      → All (λ e. text_eq k e.0 ≡ false) es
      → for_each step es ((k, y) ∷ m) ≡ kept (k, y) (for_each step es m)
  unfolding for_each
  for_each-kept step k y [] m h apart = refl
  for_each-kept step k y ((j, x) ∷ es) m h apart =
      ap (go_on (for_each step es)) (h j k x y m apart.0)
      ∙ go_on-kept (k, y) (for_each step es) (step j x m)
          (λ m'. for_each-kept step k y es m' h apart.1)

  if_chosen-kept :
      (e : Text × V) (b : Result Bool) (act : Assoc V → Result (Unit {0}) × Assoc V) (m : Assoc V)
      → act (e ∷ m) ≡ kept e (act m)
      → if_chosen b act (e ∷ m) ≡ kept e (if_chosen b act m)
  unfolding if_chosen
  if_chosen-kept e (err x) act m h = refl
  if_chosen-kept e (ok true) act m h = h
  if_chosen-kept e (ok false) act m h = refl

  set_updated-kept :
      (j k : Text) (y : V) (r : Result V) (m : Assoc V)
      → text_eq k j ≡ false
      → set_updated j r ((k, y) ∷ m) ≡ kept (k, y) (set_updated j r m)
  unfolding set_updated insert
  set_updated-kept j k y (err e) m h = refl
  set_updated-kept j k y (ok z) m h = rw h refl

  update_found-kept :
      (j k : Text) (y : V) (f : V → Result (Option V)) (o : Option V) (m : Assoc V)
      → text_eq k j ≡ false
      → update_found j f o ((k, y) ∷ m) ≡ kept (k, y) (update_found j f o m)
  unfolding update_found
  update_found-kept j k y f none m h = refl
  update_found-kept j k y f (some x) m h = set_updated-kept j k y (apply_update f x) m h

  update_entry-kept :
      (j k : Text) (y : V) (f : V → Result (Option V)) (m : Assoc V)
      → text_eq k j ≡ false
      → update_entry j f ((k, y) ∷ m) ≡ kept (k, y) (update_entry j f m)
  unfolding update_entry lookup
  update_entry-kept j k y f m h = rw h (update_found-kept j k y f (lookup j m) m h)

  set_head :
      (k : Text) (x : V) (es : Assoc V) (r : Result V)
      (rest : Assoc V → Result (Unit {0}) × Assoc V) (after : Result (Unit {0}) × Assoc V)
      → ((y : V) → rest ((k, y) ∷ es) ≡ kept (k, y) after)
      → go_on rest (set_updated k r ((k, x) ∷ es)) ≡ put_value k x es r after
  unfolding go_on set_updated put_value insert
  set_head k x es (err e) rest after h = refl
  set_head k x es (ok y) rest after h = rw (text_eq_refl k) (h y)

  update_entry-head :
      (f : V → Result (Option V)) (k : Text) (x : V) (es : Assoc V)
      → update_entry k f ((k, x) ∷ es) ≡ set_updated k (apply_update f x) ((k, x) ∷ es)
  unfolding update_entry lookup update_found
  update_entry-head f k x es = rw (text_eq_refl k) refl

  updated_head :
      (p : Option (V → Result Bool)) (f : V → Result (Option V)) (k : Text) (x : V) (es : Assoc V)
      (b : Result Bool) (rest : Assoc V → Result (Unit {0}) × Assoc V)
      → ((y : V) → rest ((k, y) ∷ es) ≡ kept (k, y) (each_updated p f es))
      → go_on rest (if_chosen b (update_entry k f) ((k, x) ∷ es))
        ≡ put_value k x es (b >>= new_value f x) (each_updated p f es)
  unfolding go_on if_chosen put_value apply_update
  updated_head p f k x es (err e) rest h = refl
  updated_head p f k x es (ok false) rest h = h x
  updated_head p f k x es (ok true) rest h =
      ap (go_on rest) (update_entry-head f k x es)
      ∙ set_head k x es (apply_update f x) rest (each_updated p f es) h

  -- `updateAll` walks over the records in order: each record that the filter, if there is one, chooses becomes what the update returns for it, or
  -- stays if that is nothing; the others stay. If the filter or the update throws for a record, `updateAll` rejects with that error, and
  -- this record and those after it stay. The keys and their order do not change. The keys are distinct, as in a map.
  pub update_all-each :
      (p : Option (V → Result Bool)) (f : V → Result (Option V)) (m : Assoc V)
      → HasDistinctKeys m
      → update_all p f m ≡ each_updated p f m
  unfolding update_all each_updated for_each
  update_all-each p f [] d = refl
  update_all-each p f ((k, x) ∷ es) d =
      let step : Text → V → Assoc V → Result (Unit {0}) × Assoc V =
        λ j y. if_chosen (chosen p y) (update_entry j f) in
      updated_head p f k x es (chosen p x) (for_each step es) (λ y.
        for_each-kept step k y es es
          (λ j i z w m h.
            if_chosen-kept (i, w) (chosen p z) (update_entry j f) m (update_entry-kept j i w f m h))
          d.0
        ∙ ap (kept (k, y)) (update_all-each p f es d.1))
      ∙ ap (λ b. put_value k x es (b >>= new_value f x) (each_updated p f es)) (chosen-wanted p x)

  erase-apart : (k : Text) (es : Assoc V) → All (λ e. text_eq k e.0 ≡ false) es → erase k es ≡ es
  unfolding erase
  erase-apart k [] apart = refl
  erase-apart k ((j, x) ∷ es) apart =
      rw (apart_sym k j apart.0) (ap (◌∷◌ (j, x)) (erase-apart k es apart.1))

  delete-kept :
      (j k : Text) (y : V) (m : Assoc V)
      → text_eq k j ≡ false
      → delete j ((k, y) ∷ m) ≡ kept (k, y) (delete j m)
  unfolding delete if_defined erase
  delete-kept j k y m h = ground (arith, h)

  deleted_head :
      (k : Text) (x : V) (es : Assoc V) (b : Result Bool)
      (rest : Assoc V → Result (Unit {0}) × Assoc V) (after : Result (Unit {0}) × Assoc V)
      → truthy k ≡ true
      → All (λ e. text_eq k e.0 ≡ false) es
      → rest es ≡ after
      → rest ((k, x) ∷ es) ≡ kept (k, x) after
      → go_on rest (if_chosen b (delete k) ((k, x) ∷ es)) ≡ leave_out k x es b after
  unfolding go_on if_chosen leave_out delete if_defined erase
  deleted_head k x es (err e) rest after named apart gone stays = refl
  deleted_head k x es (ok false) rest after named apart gone stays = stays
  deleted_head k x es (ok true) rest after named apart gone stays =
      rw (named, text_eq_refl k, erase-apart k es apart) gone

  -- `deleteAll` walks over the records in order: those that the filter, if there is one, chooses are gone and the others stay, until the
  -- filter throws for a record; then it rejects with that error, and this record and those after it stay. The keys are distinct, and none is
  -- empty.
  pub delete_all-each :
      (p : Option (V → Result Bool)) (m : Assoc V)
      → HasDistinctKeys m
      → All (λ e. truthy e.0 ≡ true) m
      → delete_all p m ≡ each_deleted p m
  unfolding delete_all each_deleted for_each
  delete_all-each p [] d named = refl
  delete_all-each p ((k, x) ∷ es) d named =
      let step : Text → V → Assoc V → Result (Unit {0}) × Assoc V =
        λ j y. if_chosen (chosen p y) (delete j) in
      let rest = delete_all-each p es d.1 named.1 in
      deleted_head k x es (chosen p x) (for_each step es) (each_deleted p es) named.0 d.0 rest (
        for_each-kept step k x es es
          (λ j i z w m h. if_chosen-kept (i, w) (chosen p z) (delete j) m (delete-kept j i w m h))
          d.0
        ∙ ap (kept (k, x)) rest)
      ∙ ap (λ b. leave_out k x es b (each_deleted p es)) (chosen-wanted p x)
