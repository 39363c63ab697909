-- ===== src/Sqlite/ObjectStorage/Versions.antt =====
-- Two processes on one record of src/sqlite/SqliteObjectStorage.ts, and the calls that fail.
use node_cqrs.Common.{
  ◌≡◌, refl, ap, ◌∙◌, ◌+◌, true, false, Option, none, some, Text, text_eq, Bool, Bool-cases, arith,
  Option-cases, inl, inr, if◌then◌else◌,
}
use node_cqrs.Common.Json.{Json}
use node_cqrs.Common.Tables.{
  text_key, find, put, remove, delete_row, counted, find-put_self, find-remove,
}
use node_cqrs.Messages.{Result, ok, err, plain_error}
use node_cqrs.Sqlite.ObjectStorage.{
  Row, Rows, constraint_error, parsed, read, create_sync, inserted, write_version, update_sync,
  updated, delete_sync,
}
use node_cqrs.Sqlite.ObjectStorage.Records.{
  record_of, write_version-current, write_version-stale, update-found,
}

abbrev pub is_there : {V : Type 0} → Option V → Bool
is_there none = false
is_there (some v) = true

module _ {V : Type 0} (guid : Text → Text) (json : Json V) where
  pub update_sync-conflict :
      (id : Text) (ours theirs : V → Result V) (t : Rows) (r : Row) (v w : V)
      → find (guid id) t ≡ some r
      → ours (json.parse r.text) ≡ ok v
      → theirs (json.parse r.text) ≡ ok w
      → update_sync guid json id ours (λ s. (update_sync guid json id theirs (λ u. u) s).1) t
        ≡ (err plain_error, put (guid id) (record_of guid json w (r.version + 1)) t)
  update_sync-conflict id ours theirs t r v w there mine other =
      let next = record_of guid json w (r.version + 1) in
      let wrote =
        update-found guid json id theirs (λ u. u) t r w there other
        ∙ write_version-current guid json id w t r there in
      update-found guid json id ours (λ s. (update_sync guid json id theirs (λ u. u) s).1) t r v
        there mine
      ∙ (ap (λ (p : Result (Unit {0}) × Rows). write_version guid json id v r.version p.1) wrote
          ∙ write_version-stale guid json id v r.version (put (guid id) next t) next
              (find-put_self (guid id) next t) (omega arith))

  update-missing :
      (id : Text) (change : V → Result V) (meanwhile : Rows → Rows) (t : Rows)
      → find (guid id) t ≡ none
      → update_sync guid json id change meanwhile t ≡ (err plain_error, t)
  unfolding update_sync updated
  update-missing id change meanwhile t missing = rw missing refl

  create-taken :
      (id : Text) (v : V) (t : Rows) (r : Row)
      → find (guid id) t ≡ some r
      → create_sync guid json id v t ≡ (err constraint_error, t)
  unfolding create_sync inserted
  create-taken id v t r there = rw there refl

  delete-found :
      (id : Text) (t : Rows) (r : Row)
      → find (guid id) t ≡ some r
      → delete_sync guid json id t ≡ (ok true, remove (guid id) t)
  unfolding delete_sync delete_row counted
  delete-found id t r there = rw there refl

  delete-missing :
      (id : Text) (t : Rows)
      → find (guid id) t ≡ none
      → delete_sync guid json id t ≡ (ok false, remove (guid id) t)
  unfolding delete_sync delete_row counted
  delete-missing id t missing = rw missing refl

  get-remove :
      (id j : Text) (t : Rows)
      → read guid json j (remove (guid id) t)
        ≡ (if text_eq (guid id) (guid j) then none else read guid json j t)
  unfolding read parsed
  get-remove id j t = elim (Bool-cases (text_eq (guid id) (guid j))) [
    | inl e ↦ rw (find-remove (guid id) (guid j) t, e) refl
    | inr e ↦ rw (find-remove (guid id) (guid j) t, e) refl
  ]

  pub delete_sync-read :
      (id : Text) (t : Rows)
      → ((delete_sync guid json id t).0 ≡ ok (is_there (read guid json id t)))
        × ((j : Text)
            → read guid json j (delete_sync guid json id t).1
              ≡ (if text_eq (guid id) (guid j) then none else read guid json j t))
  unfolding read parsed
  delete_sync-read id t = elim (Option-cases (find (guid id) t)) [
    | inl missing ↦
        let done = delete-missing id t missing in
        (
          ap (λ (p : Result Bool × Rows). p.0) done ∙ rw missing refl,
          λ j. ap (λ (p : Result Bool × Rows). read guid json j p.1) done ∙ get-remove id j t,
        )
    | inr (r, there) ↦
        let done = delete-found id t r there in
        (
          ap (λ (p : Result Bool × Rows). p.0) done ∙ rw there refl,
          λ j. ap (λ (p : Result Bool × Rows). read guid json j p.1) done ∙ get-remove id j t,
        )
  ]
