-- ===== src/Sqlite/ObjectStorage/Records.antt =====
-- The storage of src/sqlite/SqliteObjectStorage.ts as a map from identifiers to records.
use node_cqrs.Common.{
  ◌≡◌, refl, sym, ap, ◌∙◌, ℕ, ◌+◌, Option, none, some, Text, text_eq, Bool-cases, arith,
  Option-cases, inl, inr, if◌then◌else◌, ◌≢◌,
}
use node_cqrs.Common.Json.{Json, IsRoundTrip}
use node_cqrs.Common.Tables.{text_key, find, put, changed, on_found, update_row-on_found, find-put}
use node_cqrs.Messages.{Result, ok, err, plain_error}
use node_cqrs.Sqlite.ObjectStorage.{
  Row, Rows, next_version, parsed, read, create_sync, inserted, write_version, update_existing,
  write_updated, update_sync, updated, enforced, create_first, enforce_sync,
}

module _ {V : Type 0} (guid : Text → Text) (json : Json V) where
  abbrev pub record_of : V → ℕ → Row
  record_of v version = record { text = json.stringify v; version = version }

  next_version-same :
      (text : Text) (r : Row)
      → next_version text r.version r ≡ some (record { text = text; version = r.version + 1 })
  unfolding next_version
  next_version-same text r = ground arith

  next_version-other :
      (text : Text) (version : ℕ) (r : Row)
      → r.version ≢ version
      → next_version text version r ≡ none
  unfolding next_version
  next_version-other text version r h = ground arith

  pub write_version-current :
      (id : Text) (v : V) (t : Rows) (r : Row)
      → find (guid id) t ≡ some r
      → write_version guid json id v r.version t
        ≡ (ok tt, put (guid id) (record_of v (r.version + 1)) t)
  unfolding write_version on_found changed
  write_version-current id v t r there =
      rw
        (update_row-on_found (guid id) (next_version (json.stringify v) r.version) t _ (
          ap (on_found (next_version (json.stringify v) r.version)) there
          ∙ next_version-same (json.stringify v) r))
        refl

  pub write_version-stale :
      (id : Text) (v : V) (version : ℕ) (t : Rows) (r : Row)
      → find (guid id) t ≡ some r
      → r.version ≢ version
      → write_version guid json id v version t ≡ (err plain_error, t)
  unfolding write_version on_found changed
  write_version-stale id v version t r there other =
      rw
        (update_row-on_found (guid id) (next_version (json.stringify v) version) t _ (
          ap (on_found (next_version (json.stringify v) version)) there
          ∙ next_version-other (json.stringify v) version r other))
        refl

  -- What a table holds after the record of `id` is set to a value.
  abbrev pub Holds : Text → V → Rows → Rows → Type 0
  Holds id v before after =
      (j : Text)
      → read guid json j after
        ≡ (if text_eq (guid id) (guid j) then some v else read guid json j before)

  get-put :
      (rt : IsRoundTrip json) (id : Text) (v : V) (version : ℕ) (t : Rows)
      → Holds id v t (put (guid id) (record_of v version) t)
  unfolding read parsed
  get-put rt id v version t j = elim (Bool-cases (text_eq (guid id) (guid j))) [
    | inl e ↦ rw (find-put (guid id) (guid j) (record_of v version) t, e) (ap some (rt v))
    | inr e ↦ rw (find-put (guid id) (guid j) (record_of v version) t, e) refl
  ]

  get-find :
      (id : Text) (t : Rows) (r : Row)
      → find (guid id) t ≡ some r
      → read guid json id t ≡ some (json.parse r.text)
  unfolding read parsed
  get-find id t r there = rw there refl

  get-absent : (id : Text) (t : Rows) → find (guid id) t ≡ none → read guid json id t ≡ none
  unfolding read parsed
  get-absent id t missing = rw missing refl

  pub update-found :
      (id : Text) (change : V → Result V) (meanwhile : Rows → Rows) (t : Rows) (r : Row) (v : V)
      → find (guid id) t ≡ some r
      → change (json.parse r.text) ≡ ok v
      → update_sync guid json id change meanwhile t
        ≡ write_version guid json id v r.version (meanwhile t)
  unfolding update_sync updated update_existing write_updated
  update-found id change meanwhile t r v there gives = rw (there, gives) refl

  enforcing-found :
      (id : Text) (change : Option V → Result V) (meanwhile : Rows → Rows) (t : Rows) (r : Row)
      (v : V)
      → find (guid id) t ≡ some r
      → change (some (json.parse r.text)) ≡ ok v
      → enforce_sync guid json id change meanwhile t
        ≡ write_version guid json id v r.version (meanwhile t)
  unfolding enforce_sync enforced update_existing write_updated
  enforcing-found id change meanwhile t r v there gives = rw (there, gives) refl

  create-absent :
      (id : Text) (v : V) (t : Rows)
      → find (guid id) t ≡ none
      → create_sync guid json id v t ≡ (ok tt, put (guid id) (record_of v 1) t)
  unfolding create_sync inserted
  create-absent id v t missing = rw missing refl

  enforcing-absent :
      (id : Text) (change : Option V → Result V) (t : Rows) (v : V)
      → find (guid id) t ≡ none
      → change none ≡ ok v
      → enforce_sync guid json id change (λ t. t) t ≡ create_sync guid json id v t
  unfolding enforce_sync enforced create_first
  enforcing-absent id change t v missing gives = rw (missing, gives) refl

  pub enforce_sync-read :
      (rt : IsRoundTrip json) (id : Text) (change : Option V → Result V) (t : Rows) (v : V)
      → change (read guid json id t) ≡ ok v
      → ((enforce_sync guid json id change (λ t. t) t).0 ≡ ok tt)
        × Holds id v t (enforce_sync guid json id change (λ t. t) t).1
  enforce_sync-read rt id change t v gives = elim (Option-cases (find (guid id) t)) [
    | inl missing ↦
        let done =
          enforcing-absent id change t v missing (ap change (sym (get-absent id t missing)) ∙ gives)
          ∙ create-absent id v t missing in
        (
          ap (λ (p : Result (Unit {0}) × Rows). p.0) done,
          λ j.
              ap (λ (p : Result (Unit {0}) × Rows). read guid json j p.1) done
              ∙ get-put rt id v 1 t j,
        )
    | inr (r, there) ↦
        let done =
          enforcing-found id change (λ t. t) t r v there
            (ap change (sym (get-find id t r there)) ∙ gives)
          ∙ write_version-current id v t r there in
        (
          ap (λ (p : Result (Unit {0}) × Rows). p.0) done,
          λ j.
              ap (λ (p : Result (Unit {0}) × Rows). read guid json j p.1) done
              ∙ get-put rt id v (r.version + 1) t j,
        )
  ]
