-- ===== src/Scheduler/Success.antt =====
-- When `finalize` does what it is for.
use switch_manager.Base.{ℕ, suc, ◌<◌, ◌≡◌, true, none, some, arith, ok, is_ok, ◌==◌}
use switch_manager.Base.Text.{Text, text_eq_refl}
use switch_manager.Task.States.{Status, is_running}
use switch_manager.Task.{Persisted, persisted_validate}
use switch_manager.Store.Rows.{Table, find, find-id, find-replace, replace}
use switch_manager.Store.Updates.{update_where-some}
use switch_manager.Store.{Guard, get, save, saved, scan_task}
use switch_manager.Scheduler.Outcome.{ExecutionResult}
use switch_manager.Scheduler.Finalization.{prepare-moves}
use switch_manager.Scheduler.{Others, prepare, attempt, attempts, finalize}

-- Nobody else writes.
abbrev pub quiet : Others
quiet = record { before_get = λ k s. s; before_save = λ k s. s }

-- The `Save` of a valid row that the guard lets through.
save-done :
    (g : Guard) (v p : Persisted) (s : Table)
    → find v.task.id s ≡ some p
    → 0 < p.task.version
    → v.task.version ≡ suc p.task.version
    → is_ok (persisted_validate v) ≡ true
    → scan_task (saved v p) ≡ ok (saved v p)
    → g.on_update p (saved v p) ≡ none
    → save g v p.task.version s ≡ (replace (saved v p) s, ok (saved v p))
unfolding save
save-done g v p s here pos next valid scan lets = ground (
  arith,
  here,
  next,
  valid,
  scan,
  lets,
  update_where-some g v.task.id (λ r. r.task.version == p.task.version) (saved v) s here,
)

saved-id : (v p : Persisted) → (saved v p).task.id ≡ v.task.id
saved-id v p = ground arith

-- With nobody else writing, `finalize` of a running row that the scan lets through ends at the first
-- attempt: the row that was prepared for the final state is in the table under its ID, with the
-- version one higher, and there is no error. The prepared row passes the checks, the saved
-- row the scan, and the constraints do not refuse it.
pub finalize-Settles :
    (g : Guard) (now : ℕ → ℕ) (id : Text) (status : Status) (o : ExecutionResult) (s : Table)
    (p v : Persisted)
    → find id s ≡ some p
    → scan_task p ≡ ok p
    → is_running p.task.status ≡ true
    → 0 < p.task.version
    → prepare status (now 2) o p ≡ ok v
    → is_ok (persisted_validate v) ≡ true
    → scan_task (saved v p) ≡ ok (saved v p)
    → g.on_update p (saved v p) ≡ none
    → let (s', r) = finalize g quiet now id status o s in
      (r ≡ ok tt)
      × (find id s' ≡ some (saved v p))
      × ((saved v p).task.version ≡ suc p.task.version)
unfolding attempts attempt get
finalize-Settles g now id status o s p v here scan run pos made valid fine lets =
    let (named, next, _) = prepare-moves status (now 2) o p v made in
    let own : find v.task.id s ≡ some p = cc (here, find-id id s here, named) in
    let kept : (saved v p).task.id ≡ v.task.id = saved-id v p in
    let found : find (saved v p).task.id s ≡ some p = rw kept own in
    let step = save-done g v p s own pos next valid fine lets in
    ground (
      arith,
      here,
      scan,
      run,
      made,
      step,
      next,
      named,
      find-id id s here,
      text_eq_refl id,
      find-replace id (saved v p) s {r = p} found,
      kept,
    )
