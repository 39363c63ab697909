-- ===== src/Sqlite/ObjectStorage/Contract.antt =====
-- What src/sqlite/SqliteObjectStorage.ts promises its callers, the assertion of each method included.
use node_cqrs.Common.{
  ◌≡◌, refl, sym, ap, subst, ◌∙◌, ◌+◌, true, Option, none, some, Text, text_eq, truthy, Bool,
  if◌then◌else◌,
}
use node_cqrs.Common.Json.{Json, IsRoundTrip}
use node_cqrs.Common.Tables.{text_key, find, put}
use node_cqrs.Messages.{Result, ok, err, plain_error}
use node_cqrs.Sqlite.ObjectStorage.{
  Row, Rows, if_defined, read, enforce_sync, update_sync, delete_sync, update, update_enforcing_new,
  delete,
}
use node_cqrs.Sqlite.ObjectStorage.Records.{record_of, Holds, enforce_sync-read}
use node_cqrs.Sqlite.ObjectStorage.Versions.{is_there, update_sync-conflict, delete_sync-read}

if_defined-truthy :
    {X : Type 0} (id : Text) (rest : Rows → Result X × Rows) (t : Rows)
    → truthy id ≡ true
    → if_defined id rest t ≡ rest t
unfolding if_defined
if_defined-truthy id rest t named = rw named refl

module _ {V : Type 0} (guid : Text → Text) (json : Json V) where
  update-named :
      (id : Text) (change : V → Result V) (meanwhile : Rows → Rows) (t : Rows)
      → truthy id ≡ true
      → update guid json id change meanwhile t ≡ update_sync guid json id change meanwhile t
  unfolding update
  update-named id change meanwhile t named =
      if_defined-truthy id (update_sync guid json id change meanwhile) t named

  -- `updateEnforcingNew` sets the record to what the function makes of the record that is there, or of none,
  -- provided that the identifier is not empty, that JSON is read back as it was written and that no other process comes between:
  -- if the function returns a value, the call succeeds, the record has that value, and every other record is what it was.
  pub read-update_enforcing_new :
      (rt : IsRoundTrip json) (id : Text) (change : Option V → Result V) (t : Rows) (v : V)
      → truthy id ≡ true
      → change (read guid json id t) ≡ ok v
      → ((update_enforcing_new guid json id change (λ s. s) t).0 ≡ ok tt)
        × Holds guid json id v t (update_enforcing_new guid json id change (λ s. s) t).1
  unfolding update_enforcing_new
  read-update_enforcing_new rt id change t v named gives =
      subst (λ (p : Result (Unit {0}) × Rows). (p.0 ≡ ok tt) × Holds guid json id v t p.1)
        (sym (if_defined-truthy id (enforce_sync guid json id change (λ s. s)) t named))
        (enforce_sync-read guid json rt id change t v gives)

  -- No update is lost: if between the two statements of an update another process updates the same record and
  -- returns, then the first update throws and the table is as the other process left it.
  pub update-conflict :
      (id : Text) (ours theirs : V → Result V) (t : Rows) (r : Row) (v w : V)
      → truthy id ≡ true
      → find (guid id) t ≡ some r
      → ours (json.parse r.text) ≡ ok v
      → theirs (json.parse r.text) ≡ ok w
      → update guid json id ours (λ s. (update guid json id theirs (λ u. u) s).1) t
        ≡ (err plain_error, put (guid id) (record_of guid json w (r.version + 1)) t)
  update-conflict id ours theirs t r v w named there mine other =
      update-named id ours (λ s. (update guid json id theirs (λ u. u) s).1) t named
      ∙ (ap (λ (meanwhile : Rows → Rows). update_sync guid json id ours meanwhile t)
            (λ i s. (update-named id theirs (λ u. u) s named i).1)
          ∙ update_sync-conflict guid json id ours theirs t r v w there mine other)

  -- `delete` answers whether the record was there, and afterwards it is not there while every other record is what
  -- it was; the identifier must not be empty.
  pub read-delete :
      (id : Text) (t : Rows)
      → truthy id ≡ true
      → ((delete guid json id t).0 ≡ ok (is_there (read guid json id t)))
        × ((j : Text)
            → read guid json j (delete guid json id t).1
              ≡ (if text_eq (guid id) (guid j) then none else read guid json j t))
  unfolding delete
  read-delete id t named =
      subst
        (λ (p : Result Bool × Rows).
          (p.0 ≡ ok (is_there (read guid json id t)))
          × ((j : Text)
              → read guid json j p.1
                ≡ (if text_eq (guid id) (guid j) then none else read guid json j t)))
        (sym (if_defined-truthy id (delete_sync guid json id) t named))
        (delete_sync-read guid json id t)
