-- ===== src/Store.antt =====
-- internal/infrastructure/postgres/task_repository.go over a table of tasks, with errors.go's codes.
-- Each method is one SQL statement, and a later `Get` where there is one. A row that is returned goes
-- through `scanTask`, which refuses an invalid one after the write is done; such an error has no SQL
-- state, so it becomes DATABASE_UNAVAILABLE. What the table's constraints and triggers (migrations/)
-- say to a write is the parameter `Guard`: no code if they let it through. Lost connections are not
-- modelled. A column gives back what was written to it: an empty text goes through NULL and comes back
-- as it was, JSON and UUIDs are given in the form in which PostgreSQL prints them, and times in
-- its precision.
pub mod Rows
pub mod Updates
pub mod Legal
pub mod Requests
pub mod Keys
pub mod Insertion
pub mod Claims
pub mod Tests
use switch_manager.Base.{
  ℕ, suc, ◌+◌, Bool, true, false, not, ◌&&◌, ◌||◌, List, [], ◌∷◌, ◌++◌, Option, none, some, ltb,
  leb, ◌==◌, if◌then◌else◌, is_empty, length, take, any, Result, ok, err, ◌>>=◌, is_ok,
}
use switch_manager.Base.Text.{Text, codes, text_eq, is_blank}
use switch_manager.AppError.{
  Code, validation_error, task_not_found, state_conflict, idempotency_conflict,
  task_not_cancellable, database_unavailable,
}
use switch_manager.Task.States.{
  Status, pending, queued, running, cancelled, interrupted, is_pending, is_queued, is_running,
  is_waiting, is_cancelled,
}
use switch_manager.Task.{Task, Persisted, is_set, persisted_validate}
use Rows.{Table, find, replace, oldest, sort_rows, filter_rows}

pub data Fault : Type 0 where
  code : Code → Fault
  no_queued_task : Fault

-- The constraints' answer to an insert, and to an update of a row.
pub record Guard : Type 0 where
  pub on_insert : Persisted → Option Code
  pub on_update : Persisted → Persisted → Option Code

abbrev pub Answer : Type 0
Answer = Table × Result Fault Persisted

abbrev pub invalid : Table → Answer
invalid s = (s, err (code validation_error))

-- `scanTask`.
unfoldable pub scan_task : Persisted → Result Fault Persisted
scan_task r = if is_ok (persisted_validate r) then ok r else err (code database_unavailable)

-- What an UPDATE of one row by its ID does: no row qualifies, the constraints refuse, or it is done.
pub data Updated : Type 0 where
  no_rows : Updated
  refused : Code → Updated
  written : Persisted → Table → Updated

abbrev pub checked_write : Option Code → Persisted → Table → Updated
checked_write none r s = written r s
checked_write (some c) r s = refused c

-- UPDATE … WHERE id = `id` AND `test` RETURNING ….
unfoldable pub update_where :
    Guard → Text → (Persisted → Bool) → (Persisted → Persisted) → Table → Updated
update_where g id test f s = elim (find id s) [
  | none ↦ no_rows
  | some r ↦ if test r then checked_write (g.on_update r (f r)) (f r) (replace (f r) s) else no_rows
]

-- The table and the answer after an UPDATE … RETURNING: `missing` if no row qualified.
abbrev pub answer : Table → Result Fault Persisted → Updated → Answer
answer s missing no_rows = (s, missing)
answer s missing (refused c) = (s, err (code c))
answer s missing (written r s') = (s', scan_task r)

-- `Get`.
unfoldable pub get : Text → Table → Result Fault Persisted
get id s = elim (find id s) [ none ↦ err (code task_not_found) | some r ↦ scan_task r ]

-- An empty payload is stored as `{}`.
abbrev pub with_payload : Persisted → Persisted
with_payload p =
    let t = p.task in
    if is_empty t.payload then record p { task = record t { payload = codes "{}" } } else p

abbrev pub with_version : Persisted → Persisted
with_version p =
    let t = p.task in if t.version == 0 then record p { task = record t { version = 1 } } else p

abbrev pub same_request : Persisted → Persisted → Bool
same_request p r =
    not (is_empty p.idempotency_key)
    && text_eq p.idempotency_key r.idempotency_key
    && text_eq p.task.created_by r.task.created_by

unfoldable pub insert : Guard → Persisted → Table → Answer
insert g p s =
    if any (λ r. text_eq r.task.id p.task.id) s
    then (s, err (code state_conflict))
    else if any (same_request p) s
    then (s, err (code idempotency_conflict))
    else elim (g.on_insert p) [ some c ↦ (s, err (code c)) | none ↦ (s ++ p ∷ [], scan_task p) ]

-- `Create`.
unfoldable pub create : Guard → Persisted → Table → Answer
unfolding insert
create g value s =
    let p = with_version (with_payload value) in
    if is_ok (persisted_validate p) then insert g p s else invalid s

-- `FindByIdempotency`.
unfoldable pub find_by_idempotency : Text → Text → Table → Result Fault Persisted
find_by_idempotency created_by key s =
    if is_blank key
    then err (code validation_error)
    else elim (filter_rows
        (λ r. text_eq r.task.created_by created_by && text_eq r.idempotency_key key) s) [
          | [] ↦ err (code task_not_found)
          | r ∷ rest ↦ scan_task r
        ]

-- The columns that `Save` writes: all but the creator and the creation time.
abbrev pub saved : Persisted → Persisted → Persisted
saved value r =
    let v = with_payload value in
    let t = v.task in
    record v { task = record t { created_by = r.task.created_by; created_at = r.task.created_at } }

-- `Save`.
unfoldable pub save : Guard → Persisted → ℕ → Table → Answer
save g value expected s =
    if ltb expected 1 || not (value.task.version == suc expected)
    then invalid s
    else if is_ok (persisted_validate value)
    then answer s (err (code state_conflict))
        (update_where g value.task.id (λ r. r.task.version == expected) (saved value) s)
    else invalid s

abbrev pub to_queued : Persisted → Persisted
to_queued r =
    let t = r.task in record r { task = record t { status = queued; version = suc t.version } }

-- What `QueuePending` answers when its UPDATE met no row.
abbrev pub queued_already : Result Fault Persisted → Result Fault Persisted
queued_already (err e) = err e
queued_already (ok r) = if is_queued r.task.status then ok r else err (code state_conflict)

-- `QueuePending`.
unfoldable pub queue_pending : Guard → Text → Table → Answer
queue_pending g id s =
    if is_blank id
    then invalid s
    else answer s (queued_already (get id s))
        (update_where g id (λ r. is_pending r.task.status) to_queued s)

-- The WHERE clause of `RequestCancel`, and its CASE expressions.
abbrev pub can_cancel : Persisted → Bool
can_cancel r =
    is_waiting r.task.status || is_running r.task.status && not (is_set r.task.cancel_requested_at)

abbrev pub to_cancelled : ℕ → Persisted → Persisted
to_cancelled at r =
    let t = r.task in
    record r {
      task = record t {
        cancel_requested_at = some at;
        status = if is_waiting t.status then cancelled else t.status;
        finished_at = if is_waiting t.status then some at else t.finished_at;
        version = suc t.version;
      };
    }

abbrev pub cancelled_already : Result Fault Persisted → Result Fault Persisted
cancelled_already (err e) = err e
cancelled_already (ok r) =
    if is_cancelled r.task.status || is_running r.task.status && is_set r.task.cancel_requested_at
    then ok r
    else err (code task_not_cancellable)

-- `RequestCancel`.
unfoldable pub request_cancel : Guard → Text → ℕ → Table → Answer
request_cancel g id at s =
    if is_blank id || at == 0
    then invalid s
    else answer s (cancelled_already (get id s)) (update_where g id can_cancel (to_cancelled at) s)

abbrev pub to_running : ℕ → Persisted → Persisted
to_running at r =
    let t = r.task in
    record r { task = record t { status = running; started_at = some at; version = suc t.version } }

-- The candidate, if there is one, becomes running.
abbrev pub start_candidate : Guard → ℕ → Table → Option Persisted → Answer
start_candidate g at s none = (s, err no_queued_task)
start_candidate g at s (some c) =
    answer s (err no_queued_task) (update_where g c.task.id (λ _. true) (to_running at) s)

-- Which rows are candidates; `locked` says which ones other transactions hold, which are skipped.
abbrev pub free : (Persisted → Bool) → Persisted → Bool
free locked r = is_queued r.task.status && not (locked r)

-- `ClaimNextQueued`.
unfoldable pub claim_next_queued : Guard → (Persisted → Bool) → ℕ → Table → Answer
claim_next_queued g locked at s =
    if at == 0 then invalid s else start_candidate g at s (oldest (filter_rows (free locked) s))

abbrev pub to_interrupted : ℕ → Persisted → Persisted
to_interrupted at r =
    let t = r.task in
    record r {
      task = record t { status = interrupted; finished_at = some at; version = suc t.version };
    }

-- `started_at <= $1`.
abbrev pub started_by : ℕ → Option ℕ → Bool
started_by at none = false
started_by at (some t) = leb t at

abbrev pub interruptible : ℕ → Persisted → Bool
interruptible at r = is_running r.task.status && started_by at r.task.started_at

-- The rows after the UPDATE and how many it met, or the code of a row that the constraints refuse.
unfoldable pub interrupt_rows : Guard → ℕ → Table → Result Code (Table × ℕ)
interrupt_rows g at [] = ok ([], 0)
interrupt_rows g at (r ∷ rest) =
    let others = interrupt_rows g at rest in
    if interruptible at r
    then elim (g.on_update r (to_interrupted at r)) [
      | some c ↦ err c
      | none ↦ others >>= λ t. ok (to_interrupted at r ∷ t.0, suc t.1)
    ]
    else others >>= λ t. ok (r ∷ t.0, t.1)

abbrev pub affected : Table → Result Code (Table × ℕ) → Table × Result Fault ℕ
affected s (err c) = (s, err (code c))
affected s (ok (s', n)) = (s', ok n)

-- `InterruptRunning`.
unfoldable pub interrupt_running : Guard → ℕ → Table → Table × Result Fault ℕ
interrupt_running g at s =
    if at == 0 then (s, err (code validation_error)) else affected s (interrupt_rows g at s)

unfoldable pub scan_all : List Persisted → Result Fault (List Persisted)
scan_all [] = ok []
scan_all (r ∷ rest) = do x ← scan_task r; xs ← scan_all rest; ok (x ∷ xs)

-- `limit <= 0` is 100, and 1000 is the most.
abbrev pub clamp_limit : ℕ → ℕ
clamp_limit limit = if limit == 0 then 100 else if ltb 1000 limit then 1000 else limit

-- `ListRecoverable`.
unfoldable pub list_recoverable : ℕ → Table → Result Fault (List Persisted)
unfolding sort_rows filter_rows scan_all
list_recoverable limit s =
    scan_all (take (clamp_limit limit) (sort_rows (filter_rows (λ r. is_waiting r.task.status) s)))
