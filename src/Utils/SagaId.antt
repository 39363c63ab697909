-- ===== src/Utils/SagaId.antt =====
-- src/utils/sagaId.ts: a saga's identifier is its descriptor and the identifier of the event that
-- started it, joined by a colon.
pub mod RoundTrip
use node_cqrs.Common.{
  ℕ, suc, ◌+◌, ◌-◌, Bool, true, ◌||◌, Option, none, some, List, [], ◌∷◌, ◌++◌, Text, truthy, ◌==◌,
  leb, if◌then◌else◌,
}
use node_cqrs.Common.Lists.{length, take, drop}
use node_cqrs.Messages.{Result, ok, err, type_error, guard, ◌>>=◌, ◌>>◌}

abbrev pub colon : ℕ
colon = b':'

unfoldable pub make_saga_id : Text → Text → Result Text
make_saga_id saga_descriptor origin_event_id = do
  guard (truthy saga_descriptor) type_error
  guard (truthy origin_event_id) type_error
  ok (saga_descriptor ++ colon ∷ origin_event_id)

-- `s.lastIndexOf(c)`; `none` is -1.
last_index_of : ℕ → Text → Option ℕ
last_index_of c [] = none
last_index_of c (x ∷ xs) = elim (last_index_of c xs) [
  | some i ↦ some (suc i)
  | none ↦ if x == c then some 0 else none
]

split_at : Text → Option ℕ → Result (Text × Text)
split_at saga_id none = err type_error
split_at saga_id (some offset) =
    if leb offset 0 || leb (length saga_id - 1) offset
    then err type_error
    else ok (take offset saga_id, drop (offset + 1) saga_id)

unfoldable pub parse_saga_id : Text → Result (Text × Text)
unfolding split_at last_index_of
parse_saga_id saga_id = do
  guard (truthy saga_id) type_error
  split_at saga_id (last_index_of colon saga_id)
