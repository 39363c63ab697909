-- ===== src/Tests/Sqlite.antt =====
-- The storages and lockers over SQLite at work on a few rows.
use node_cqrs.Common.{
  ℕ, ◌≡◌, ◌≢◌, refl, true, false, none, some, [], ◌∷◌, ◌++◌, Text, codes, text_eq, arith, Option,
  lookup, or_else,
}
use node_cqrs.Common.Json.{Json}
use node_cqrs.Common.Tables.{find, put, upsert, changed, on_conflict, text_key}
use node_cqrs.Common.Lists.{any, filter}
use node_cqrs.Utils.SagaId.{parse_saga_id}
use node_cqrs.Messages.{Event, Result, ok, err, plain_error}
use node_cqrs.Projection.Once.{IsFaithful}
use node_cqrs.Sqlite.Tables.{Node, ViewKey, view_key, event_key, Database, get_event_id}
use node_cqrs.Sqlite.EventLocker.{
  event_key_of, expired_lock, lock_event, try_mark_as_projecting, get_last_event,
}
use node_cqrs.Sqlite.EventLocker as EventLocker
use node_cqrs.Sqlite.EventLocker.Projecting.{
  IsProcessed, sqlite_event_locker, sqlite_event_locker-IsFaithful,
}
use node_cqrs.Sqlite.EventLocker.Leases.{attempts, refusals, attempts-obtained, attempts-expired}
use node_cqrs.Sqlite.ViewLocker.{World, ready, taken_over, try_lock, prolong_lock, unlock}
use node_cqrs.Sqlite.ViewLocker as ViewLocker
use node_cqrs.Sqlite.ViewLocker.Sharing.{later, try_lock-later}
use node_cqrs.Sqlite.ViewLocker.Releasing.{unlock_lem}
use node_cqrs.Sqlite.ObjectStorage.{Rows, update}
use node_cqrs.Sqlite.ObjectStorage.Records.{record_of}
use node_cqrs.Sqlite.ObjectStorage.Contract.{update-conflict}
use node_cqrs.Sqlite.EventStorage.{Tables, Codec, EventRow, SagaRefRow, commit_events}
use node_cqrs.Sqlite.EventStorage.Queries.{get_saga_events, reconstructed, refers}
use node_cqrs.Sqlite.EventStorage.Committing.{IsWellFormed, AreApart}
use node_cqrs.Sqlite.EventStorage.Keeping.{commit_events-IsWellFormed}
use node_cqrs.Sqlite.EventStorage.SagaStreams.{get_saga_events-first}
use node_cqrs.Tests.Data.{added}

abbrev node : Node ℕ
node = record {
  stringify = λ e. codes "{}";
  parse = λ s. added 0 (codes "1");
  md5 = λ s. s;
  from_hex = λ s. s;
}

abbrev view : ViewKey
view = record { projection_name = codes "p"; schema_version = codes "1" }

abbrev events_of : EventLocker.Settings
events_of = record { view = view; event_lock_ttl = 15 }

abbrev views_of : ViewLocker.Settings
views_of = record { view = view; view_lock_ttl = 20 }

abbrev blank : Database
blank = record { now = 100; view_locks = []; event_locks = [] }

abbrev event : Event ℕ
event = added 0 (codes "1")

abbrev reserved : Database
reserved = record blank {
  event_locks =
      (
        record { view = view; event_id = codes "1" },
        record { processing_at = 100; processed_at = none },
      )
      ∷ [];
}

abbrev locked : Database
locked = record blank {
  view_locks = (view, record { locked_till = some 120; last_event = none }) ∷ [];
}

abbrev world : World
world = record {
  locker = record { lock_marker = true; lock_prolongation_timeout = some 110 };
  db = locked;
}

sqlite_event_locker-IsFaithful_example :
    IsFaithful (sqlite_event_locker node events_of) (IsProcessed node events_of)
sqlite_event_locker-IsFaithful_example = sqlite_event_locker-IsFaithful node events_of

attempts-obtained_example :
    attempts node events_of event (5 ∷ 9 ∷ []) reserved ≡ refusals node events_of (5 ∷ 9 ∷ [])
unfolding try_mark_as_projecting lock_event upsert changed on_conflict find put get_event_id
attempts-obtained_example =
    attempts-obtained node events_of event blank reserved (5 ∷ 9 ∷ []) refl (omega arith)

attempts-expired_example :
    attempts node events_of event ((5 ∷ []) ++ 10 ∷ []) reserved
    ≡ refusals node events_of (5 ∷ []) ++ ok true ∷ []
unfolding try_mark_as_projecting lock_event upsert changed on_conflict find put get_event_id
attempts-expired_example =
    attempts-expired node events_of event blank reserved (5 ∷ []) 10 refl (omega arith)
      (omega arith)

try_lock-later_example : (try_lock views_of (later 1 locked)).0 ≡ true
unfolding try_lock upsert changed on_conflict find put
try_lock-later_example = try_lock-later views_of blank locked 1 refl (omega arith)

unlock_lem_example :
    (ready (unlock views_of world) ≡ true)
    × ((try_lock views_of (unlock views_of world).db).0 ≡ true)
    × ((prolong_lock views_of (record world { db = (unlock views_of world).db })).0
        ≡ err plain_error)
unlock_lem_example = unlock_lem views_of world world

abbrev plain : Json Text
plain = record { stringify = λ s. s; parse = λ s. s }

abbrev rows : Rows
rows = (codes "a", record { text = codes "x"; version = 1 }) ∷ []

abbrev appended : Option Text → Result Text
appended o = ok (or_else o [] ++ codes "y")

update-conflict_example :
    update
      (λ s. s)
      plain
      (codes "a")
      (λ s. ok (s ++ codes "y"))
      (λ t. (update (λ s. s) plain (codes "a") (λ s. ok (codes "z")) (λ u. u) t).1)
      rows
    ≡ (err plain_error, put (codes "a") (record_of (λ s. s) plain (codes "z") 2) rows)
unfolding find text_eq
update-conflict_example =
    update-conflict (λ s. s) plain (codes "a") (λ s. ok (s ++ codes "y")) (λ s. ok (codes "z")) rows
      (record { text = codes "x"; version = 1 }) (codes "xy") (codes "z") refl refl refl refl

abbrev codec : Codec ℕ
codec = record {
  guid = λ s. s;
  buffer_to_guid = λ s. s;
  json = record { stringify = λ e. []; parse = λ s. added 0 [] };
  origin_json = λ s. s;
}

abbrev no_rows : Tables
no_rows = record { tbl_events = []; tbl_event_sagas = [] }

commit_events-IsWellFormed_example :
    IsWellFormed
      (commit_events codec (added 0 (codes "1") ∷ added 1 (codes "2") ∷ []) false none no_rows).1
commit_events-IsWellFormed_example =
    commit_events-IsWellFormed codec none (added 0 (codes "1") ∷ added 1 (codes "2") ∷ []) no_rows
      ((λ h. ground arith), ((λ h. ground arith), tt))
      (record { apart = tt; numbered = tt; referred = tt })

abbrev row : ℕ → Text → EventRow
row n id = record {
  rowid = n;
  id = id;
  aggregate_id = none;
  aggregate_version = none;
  type = codes "added";
  json = [];
  meta = none;
}

abbrev ref : Text → SagaRefRow
ref id = record { saga_descriptor = codes "S"; origin_id = codes "o"; event_id = id }

-- An event that starts a saga, one that belongs to it, one that does not, and one that is to be handled.
abbrev saga_tables : Tables
saga_tables = record {
  tbl_events = row 1 (codes "o") ∷ row 2 (codes "m") ∷ row 3 (codes "x") ∷ row 4 (codes "b") ∷ [];
  tbl_event_sagas = ref (codes "m") ∷ ref (codes "b") ∷ [];
}

rows_apart : (n m : ℕ) (i j : Text) → i ≢ j → AreApart (row n i) (row m j)
rows_apart n m i j h = (h, λ s. absurd (cc s.left_id))

saga_tables-IsWellFormed : IsWellFormed saga_tables
unfolding any text_eq
saga_tables-IsWellFormed = record {
  apart = (
    (
      rows_apart 1 2 (codes "o") (codes "m") (λ h. ground arith),
      (
        rows_apart 1 3 (codes "o") (codes "x") (λ h. ground arith),
        (rows_apart 1 4 (codes "o") (codes "b") (λ h. ground arith), tt),
      ),
    ),
    (
      (
        rows_apart 2 3 (codes "m") (codes "x") (λ h. ground arith),
        (rows_apart 2 4 (codes "m") (codes "b") (λ h. ground arith), tt),
      ),
      ((rows_apart 3 4 (codes "x") (codes "b") (λ h. ground arith), tt), (tt, tt)),
    ),
  );
  numbered = (refl, (refl, (refl, (refl, tt))));
  referred = (refl, (refl, tt));
}

abbrev handled_next : Event ℕ
handled_next = record (added 0 (codes "b")) { saga_origins = some ((codes "S", codes "o") ∷ []) }

get_saga_events-first_example :
    get_saga_events codec (codes "S:o") handled_next saga_tables
    ≡ ok (
        reconstructed codec saga_tables (
          row 1 (codes "o")
          ∷ filter
              (refers saga_tables.tbl_event_sagas (codes "S") (codes "o"))
              (row 2 (codes "m") ∷ row 3 (codes "x") ∷ [])))
unfolding parse_saga_id lookup text_eq
get_saga_events-first_example =
    get_saga_events-first codec (codes "S:o") (codes "S") (codes "o") (codes "b")
      ((codes "S", codes "o") ∷ []) saga_tables [] (row 2 (codes "m") ∷ row 3 (codes "x") ∷ []) []
      (row 1 (codes "o")) (row 4 (codes "b")) handled_next saga_tables-IsWellFormed refl refl refl
      refl refl refl refl refl
