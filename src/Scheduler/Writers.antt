-- ===== src/Scheduler/Writers.antt =====
-- What the writers of the table of tasks keep, in any number of writes.
use switch_manager.Base.{◌≡◌, ◌<◌, refl, true, some, arith, ◌⊎◌, inl, inr}
use switch_manager.Base.Text.{Text}
use switch_manager.Task.States.{is_terminal}
use switch_manager.Task.{Persisted}
use switch_manager.Store.Rows.{Table, Unique, find}
use switch_manager.Store.Keys.{run-Unique}
use switch_manager.Store.Insertion.{create-Extends}
use switch_manager.Store.Legal.{◌⇒◌, stays, moves, asks, Call, run, run-Lawful}
use switch_manager.Store.{Guard, create}

-- What a row may become in any number of lawful changes.
infix 40 ◌⇒*◌
pub data ◌⇒*◌ : Persisted → Persisted → Type 0 where
  done : {r : Persisted} → r ⇒* r
  step : {r q p : Persisted} → r ⇒ q → q ⇒* p → r ⇒* p

pub trans : {r q p : Persisted} → r ⇒* q → q ⇒* p → r ⇒* p
trans done m = m
trans (step a l) m = step a (trans l m)

-- A lawful change is none, or it makes the version greater.
change-version : {r q : Persisted} → r ⇒ q → (r ≡ q) ⊎ (r.task.version < q.task.version)
change-version stays = inl refl
change-version (moves c v) = inr (omega arith)
change-version (asks a b c d v) = inr (omega arith)

pub changes-version : {r q : Persisted} → r ⇒* q → (r ≡ q) ⊎ (r.task.version < q.task.version)
changes-version done = inl refl
changes-version (step {r} {q} {p} a l) = ground (arith, change-version a, changes-version l)

-- A terminal row changes no more.
pub terminal-stays : {r q : Persisted} → r ⇒* q → is_terminal r.task.status ≡ true → q ≡ r
terminal-stays done t = refl
terminal-stays (step stays l) t = terminal-stays l t
terminal-stays (step (moves c v) l) t = absurd (ground arith)
terminal-stays (step (asks a b c d v) l) t = absurd (ground arith)

-- The IDs of `s'` are unique, and each row of `s` is still there and has changed lawfully.
abbrev pub Kept : Table → Table → Type 0
Kept s s' =
    Unique s'
    × ((id : Text) (r : Persisted)
        → find id s ≡ some r
        → (q : Persisted) × (find id s' ≡ some q) × (r ⇒* q))

-- A write keeps the rows of every table whose IDs are unique.
abbrev pub Keeps : (Table → Table) → Type 0
Keeps write = (s : Table) → Unique s → Kept s (write s)

pub Kept-refl : (s : Table) → Unique s → Kept s s
Kept-refl s u = (u, λ id r h. (r, h, done))

pub Kept-trans : (s t v : Table) → Kept s t → Kept t v → Kept s v
Kept-trans s t v a b = (
  b.0,
  λ id r h.
      let (q, found, way) = a.1 id r h in
      let (p, there, further) = b.1 id q found in (p, there, trans way further),
)

-- The calls of other workers and of their clients keep the rows.
pub run-Keeps : (g : Guard) (c : Call) → Keeps (run g c)
run-Keeps g c s u = (
  run-Unique g c s u,
  λ id r h. let (q, found, way) = run-Lawful g c s id r u h in (q, found, step way done),
)

-- So does a new task.
pub create-Keeps : (g : Guard) (v : Persisted) → Keeps (λ s. (create g v s).0)
create-Keeps g v s u =
    let (distinct, old) = create-Extends g v s u in (distinct, λ id r h. (r, old id r h, done))
