-- ===== src/Tests/Data.antt =====
-- A counter: its events, its commands, and a storage for them. No part of the source.
use node_cqrs.Common.{ℕ, ◌+◌, false, none, some, List, [], Text, codes, text_eq, if◌then◌else◌}
use node_cqrs.Messages.{Event, Command, Envelope, Result, ok, err}
use node_cqrs.Aggregate.{StateType, Aggregate}
use node_cqrs.Aggregate.Behaviour.{Behaviour, done, fail, emits, AggregateType}
use node_cqrs.InMemory.EventStorage.{EventStorage, commit_events, get_aggregate_events}
use node_cqrs.CommandHandler.{EventStore, Settings, Handler, default, normalize_retry_resolver}
use node_cqrs.CommandHandler.Restoring.{query_or_all}

abbrev pub counter_id : Text
counter_id = codes "c"

abbrev pub counter_state : StateType ℕ ℕ
counter_state = record {
  mutate = none;
  methods = λ type. if text_eq type (codes "added") then some (λ e s. (ok tt, s + 1)) else none;
  clone_state = λ s. s;
  assign = λ p s. p;
}

abbrev pub on_emitted : Result (Unit {0}) → Behaviour ℕ ℕ
on_emitted (ok u) = done
on_emitted (err x) = fail x

abbrev pub adder : Command ℕ → Aggregate ℕ ℕ → Behaviour ℕ ℕ
adder c a = emits (codes "added") c.payload (λ r b. on_emitted r)

abbrev pub counter : AggregateType ℕ ℕ
counter = record {
  state_type = counter_state;
  commands = λ type. if text_eq type (codes "add") then some adder else none;
  should_take_snapshot = λ a. false;
}

abbrev pub fresh_counter : Text → Aggregate ℕ ℕ
fresh_counter id = record {
  id = id;
  core = record { version = 0; snapshot_version = none; state = some 0 };
  changes = [];
  command = none;
}

abbrev pub add : Command ℕ
add = record {
  type = codes "add";
  aggregate_id = some counter_id;
  saga_origins = none;
  payload = some 7;
  context = none;
}

abbrev pub added : ℕ → Text → Event ℕ
added version id = record {
  id = some id;
  type = codes "added";
  aggregate_id = some counter_id;
  aggregate_version = some version;
  saga_origins = none;
  payload = some 7;
  context = none;
}

abbrev pub snapshot : ℕ → Event ℕ
snapshot version = record {
  id = some (codes "s");
  type = codes "snapshot";
  aggregate_id = some counter_id;
  aggregate_version = some version;
  saga_origins = none;
  payload = some 1;
  context = none;
}

abbrev pub item : Event ℕ → Envelope ℕ
item e = record { event = some e; origin = none; ignore_concurrency_error = false }

abbrev pub stored : List (Event ℕ) → EventStorage ℕ
stored es = record { next_id = 0; events = es }

-- The in-memory storage as the store of a command handler.
abbrev pub event_store : EventStore (EventStorage ℕ) ℕ
event_store = record {
  get_new_id = λ w. (ok (codes "n"), w);
  get_aggregate_events = λ id q w. (ok (get_aggregate_events id (query_or_all q) w), w);
  dispatch = λ es ignored w. commit_events es ignored w;
}

abbrev pub settings : Settings (EventStorage ℕ) ℕ ℕ
settings = record {
  event_store = event_store;
  aggregate_type = counter;
  fresh = fresh_counter;
  restores_from = [];
  should_retry = normalize_retry_resolver default;
}

abbrev pub handler : List (Event ℕ) → Handler (EventStorage ℕ) ℕ ℕ
handler es = record {
  cache = record { entries = []; usage_counter = []; factories = [] };
  world = stored es;
}
