-- ===== src/InMemory/Lock.antt =====
-- src/in-memory/InMemoryLock.ts. The tasks whose `lock` awaits the current marker are listed, and those that a resolved marker
-- has woken, in the order in which they go on.
use node_cqrs.Common.{
  ◌≡◌, sym, ap, ◌∙◌, ℕ, Bool, true, false, not, Option, none, some, List, [], ◌∷◌, ◌++◌,
  append_assoc, append-nil, Text, text_eq, codes, if◌then◌else◌,
}
use node_cqrs.Messages.{Result, ok, err, type_error}

pub record Lock : Type 0 where
  pub lock_marker : Bool
  pub waiting : List ℕ
  pub woken : List ℕ

unfoldable pub locked : Lock → Bool
locked l = l.lock_marker

unfoldable pub ready : Lock → Bool
ready l = not (locked l)

-- `lock` up to its `await` or to its end, with the result of a call that returns; the test of the `while` comes again when the task goes on.
unfoldable pub lock : ℕ → Lock → Option Bool × Lock
unfolding locked
lock task l =
    if locked l
    then (none, record l { waiting = l.waiting ++ task ∷ [] })
    else (some true, record l { lock_marker = true })

unfoldable pub unlock : Lock → Lock
unlock l = elim l.lock_marker [
  | true ↦ record { lock_marker = false; waiting = []; woken = l.woken ++ l.waiting }
  | false ↦ l
]

-- Whether the promise is resolved at once
unfoldable pub once : Text → Lock → Result Bool
once event l = if text_eq event (codes "ready") then ok (ready l) else err type_error

-- All woken tasks go on, one after the other; the ones that obtain the lock.
unfoldable pub go_on_all : List ℕ → Lock → List ℕ × Lock
unfolding lock
go_on_all [] l = ([], l)
go_on_all (task ∷ tasks) l =
    let (acquired, after) = lock task (record l { woken = tasks }) in
    let (holders, last) = go_on_all tasks after in
    elim acquired [ none ↦ (holders, last) | some done ↦ (task ∷ holders, last) ]

held_by_waiters : List ℕ → List ℕ → Lock
held_by_waiters waiting woken = record { lock_marker = true; waiting = waiting; woken = woken }

go_on_all-held :
    (tasks waiting : List ℕ)
    → go_on_all tasks (held_by_waiters waiting tasks) ≡ ([], held_by_waiters (waiting ++ tasks) [])
unfolding go_on_all lock locked held_by_waiters
go_on_all-held [] waiting = ap (λ ts. ([], held_by_waiters ts [])) (sym (append-nil waiting))
go_on_all-held (task ∷ tasks) waiting =
    go_on_all-held tasks (waiting ++ task ∷ [])
    ∙ ap (λ ts. ([], held_by_waiters ts [])) (append_assoc waiting (task ∷ []) tasks)

-- A lock is handed to the task that has waited longest: when the holder unlocks and the woken tasks go on, the first of them obtains the
-- lock, alone, and the others wait again in their order.
pub unlock-handover :
    (task : ℕ) (tasks : List ℕ)
    → go_on_all
        (task ∷ tasks)
        (unlock (record { lock_marker = true; waiting = task ∷ tasks; woken = [] }))
      ≡ (task ∷ [], record { lock_marker = true; waiting = tasks; woken = [] })
unfolding go_on_all lock locked unlock held_by_waiters
unlock-handover task tasks = ap (λ (p : List ℕ × Lock). (task ∷ p.0, p.1)) (go_on_all-held tasks [])
