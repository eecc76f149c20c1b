-- ===== src/Scheduler/Finalization.antt =====
-- `finalize` among other connections that write to the table.
use switch_manager.Base.{
  ℕ, zero, suc, ◌≡◌, refl, Bool, true, false, some, arith, Result, ok, err, ◌==◌, if◌then◌else◌,
  ◌⊎◌, inl, inr,
}
use switch_manager.Base.Text.{Text}
use switch_manager.AppError.{state_conflict}
use switch_manager.Task.States.{Status, is_terminal, is_running, can_transition_to}
use switch_manager.Task.{Persisted, transition}
use switch_manager.Store.Rows.{Table, Unique, find, find-id}
use switch_manager.Store.Keys.{save-Unique}
use switch_manager.Store.Updates.{after, answer-after, after-kept}
use switch_manager.Store.Requests.{get-ok}
use switch_manager.Store.Legal.{moves}
use switch_manager.Store.{Guard, Fault, Answer, get, save, saved, update_where, code}
use switch_manager.Scheduler.Outcome.{ExecutionResult}
use switch_manager.Scheduler.{
  SchedulerError, Ended, Others, prepare, after_save, is_conflict, save_prepared, store,
  wrong_status, attempt, attempt_got, attempts, finalize,
}
use switch_manager.Scheduler.Writers.{
  ◌⇒*◌, step, done, trans, changes-version, terminal-stays, Kept, Keeps, Kept-refl, Kept-trans,
}

pub prepare-moves :
    (status : Status) (now : ℕ) (r : ExecutionResult) (p v : Persisted)
    → prepare status now r p ≡ ok v
    → (v.task.id ≡ p.task.id)
      × (v.task.version ≡ suc p.task.version)
      × (can_transition_to p.task.status v.task.status ≡ true)
unfolding prepare transition
prepare-moves status now r p v e = ground arith

save-after :
    (g : Guard) (v : Persisted) (expected : ℕ) (s : Table)
    → ((save g v expected s).0 ≡ s)
      ⊎ ((save g v expected s).0
          ≡ after s (update_where g v.task.id (λ r. r.task.version == expected) (saved v) s))
unfolding save
save-after g v expected s = ground (
  arith,
  answer-after s (err (code state_conflict))
      (update_where g v.task.id (λ r. r.task.version == expected) (saved v) s),
)

-- The row under `id` after the `Save` of an attempt, which comes after lawful writes of others.
save-row :
    (g : Guard) (others : Table → Table) (status : Status) (now : ℕ) (o : ExecutionResult)
    (current v : Persisted) (s : Table) (id : Text) (r : Persisted)
    → Kept s (others s)
    → find current.task.id s ≡ some current
    → prepare status now o current ≡ ok v
    → find id s ≡ some r
    → (q : Persisted) × (find id (save g v current.task.version (others s)).0 ≡ some q) × (r ⇒* q)
save-row g others status now o current v s id r keeps here made h =
    let (q, found, moved) = keeps.1 id r h in
    let (own, present, way) = keeps.1 current.task.id current here in
    elim (save-after g v current.task.version (others s)) [
      | inl same ↦ (q, rw same found, moved)
      | inr same ↦ rw same (by_row q found moved own present way)
    ]
  where
    test : Persisted → Bool
    test r = r.task.version == current.task.version

    by_row :
        (q : Persisted)
        → find id (others s) ≡ some q
        → r ⇒* q
        → (own : Persisted) → find current.task.id (others s) ≡ some own
        → current ⇒* own
        → (p : Persisted) × (find id
              (after (others s) (update_where g v.task.id test (saved v) (others s)))
            ≡ some p)
          × (r ⇒* p)
    by_row q found moved own present way =
        elim (after-kept g v.task.id test (saved v) (λ p i. ground arith) (others s) id {r = q}
          found) [
            | inl e ↦ (q, e, moved)
            | inr (t, at, e) ↦
                let (named, next, legal) = prepare-moves status now o current v made in
                let one : own ≡ q = ground (arith, present, at, named) in
                let same : current ≡ q = ground (arith, changes-version way, one, t) in
                (
                  saved v q,
                  e,
                  trans moved (
                      step (moves (ground (arith, legal, same)) (ground (arith, next, same))) done),
                )
          ]

save-Kept :
    (g : Guard) (others : Table → Table) (status : Status) (now : ℕ) (o : ExecutionResult)
    (current v : Persisted) (s : Table)
    → Kept s (others s)
    → find current.task.id s ≡ some current
    → prepare status now o current ≡ ok v
    → Kept s (save g v current.task.version (others s)).0
save-Kept g others status now o current v s keeps here made = (
  save-Unique g v current.task.version (others s) keeps.0,
  λ id r h. save-row g others status now o current v s id r keeps here made h,
)

after_save-Kept :
    (a : Answer) (again : Table → Ended) (s : Table)
    → Keeps (λ t. (again t).0)
    → Kept s a.0
    → Kept s (after_save a again).0
after_save-Kept (t, ok v) again s later now = now
after_save-Kept (t, err e) again s later now = by_kind (is_conflict e)
  where
    by_kind : (b : Bool) → Kept s (if b then again t else (t, err (store e))).0
    by_kind true = Kept-trans s t (again t).0 now (later t now.0)
    by_kind false = now

attempt-Kept :
    (g : Guard) (others : Table → Table) (now : ℕ) (status : Status) (o : ExecutionResult)
    (again : Table → Ended) (current : Persisted) (s : Table)
    → Keeps others
    → Keeps (λ t. (again t).0)
    → Unique s
    → find current.task.id s ≡ some current
    → Kept s (attempt g others now status o again current s).0
unfolding attempt
attempt-Kept g others now status o again current s keeps later u here =
    by_end (is_terminal current.task.status)
  where
    by_row :
        (p : Result SchedulerError Persisted)
        → prepare status now o current ≡ p
        → Kept s (save_prepared g others again current s p).0
    by_row (err e) made = Kept-refl s u
    by_row (ok v) made =
        after_save-Kept (save g v current.task.version (others s)) again s later
          (save-Kept g others status now o current v s (keeps s u) here made)

    by_run :
        (b : Bool)
        → Kept s
            (if b
              then (save_prepared g others again current s (prepare status now o current))
              else (s, err (wrong_status current.task.status))).0
    by_run true = by_row (prepare status now o current) refl
    by_run false = Kept-refl s u

    by_end :
        (b : Bool)
        → Kept s
            (if b
              then (s, ok tt)
              else (if is_running current.task.status
                  then (save_prepared g others again current s (prepare status now o current))
                  else (s, err (wrong_status current.task.status)))).0
    by_end true = Kept-refl s u
    by_end false = by_run (is_running current.task.status)

-- When all that other connections write, before and within the attempts, keeps each row of a table
-- with unique IDs, changes it lawfully and keeps the IDs unique, then so does a finalization
-- with any number of attempts: no row is lost, no terminal row changes, and no row leaves
-- the life cycle.
pub attempts-Keeps :
    (g : Guard) (o : Others) (now : ℕ → ℕ) (id : Text) (status : Status) (r : ExecutionResult)
    (n : ℕ)
    → ((k : ℕ) → Keeps (o.before_get k))
    → ((k : ℕ) → Keeps (o.before_save k))
    → Keeps (λ s. (attempts g o now id status r n s).0)
unfolding attempts
attempts-Keeps g o now id status r zero gets saves s u = Kept-refl s u
attempts-Keeps g o now id status r (suc n) gets saves s u =
    let s' = o.before_get n s in
    let kept = gets n s u in
    Kept-trans s s' _ kept
      (by_get s' (get id s') refl kept.0 (attempts-Keeps g o now id status r n gets saves))
  where
    by_get :
        (s' : Table) (a : Result Fault Persisted)
        → get id s' ≡ a
        → Unique s'
        → Keeps (λ s. (attempts g o now id status r n s).0)
        → Kept s'
            (attempt_got g
              (o.before_save n)
              (now n)
              status
              r
              (attempts g o now id status r n)
              a
              s').0
    by_get s' (err e) got u later = Kept-refl s' u
    by_get s' (ok current) got u later =
        let (here, _) = get-ok id s' current got in
        let own : find current.task.id s' ≡ some current = cc (here, find-id id s' here) in
        attempt-Kept g (o.before_save n) (now n) status r (attempts g o now id status r n) current
          s' (saves n) later u own

-- A terminal row is final: in a table with unique IDs, when all that others write, before and within
-- the attempts to finalize any task, keeps the IDs unique and keeps each row, which it changes
-- lawfully, a row that is terminal before is the same afterwards.
pub terminal-final :
    (g : Guard) (o : Others) (now : ℕ → ℕ) (id : Text) (status : Status) (r : ExecutionResult)
    (s : Table) (other : Text) (p : Persisted)
    → Unique s
    → ((k : ℕ) → Keeps (o.before_get k))
    → ((k : ℕ) → Keeps (o.before_save k))
    → find other s ≡ some p
    → is_terminal p.task.status ≡ true
    → find other (finalize g o now id status r s).0 ≡ some p
terminal-final g o now id status r s other p u gets saves h t =
    let (q, found, way) = (attempts-Keeps g o now id status r 3 gets saves s u).1 other p h in
    cc (found, terminal-stays way t)
