-- ===== src/Store/Requests.antt =====
-- What a request says when it comes a second time.
use switch_manager.Base.{
  ℕ, suc, ◌≡◌, refl, Bool, true, false, Option, none, some, arith, Result, ok, err, ◌<◌, ◌&&◌, ◌||◌,
  ◌==◌, ◌⊎◌, inl, inr, is_ok,
}
use switch_manager.Base.Text.{Text, text_eq_refl, is_blank}
use switch_manager.AppError.{state_conflict}
use switch_manager.Task.States.{is_running, is_pending, is_queued, is_cancelled}
use switch_manager.Task.{Persisted, is_set, persisted_validate}
use switch_manager.Store.Rows.{Table, find, replace, find-id, find-replace}
use switch_manager.Store.Updates.{update_where-none, update_where-some}
use switch_manager.Store.{
  Fault, Guard, code, update_where, checked_write, to_queued, can_cancel, to_cancelled,
  queue_pending, request_cancel, queued_already, cancelled_already, get, answer, save, saved,
  scan_task,
}

-- A row that the scan lets through is the row that it answers.
scan_task-ok : (p r : Persisted) → scan_task p ≡ ok r → p ≡ r
unfolding scan_task
scan_task-ok p r h = ground arith

-- `r` was made of the row under `id`, which passed the test, and stands there now.
abbrev pub Made :
    Text → (Persisted → Bool) → (Persisted → Persisted) → Table → Table → Persisted → Type 0
Made id test f s s' r =
    (p : Persisted) × (find id s ≡ some p)
    × (find id s' ≡ some r)
    × (test p ≡ true)
    × (r ≡ f p)
    × (scan_task r ≡ ok r)

-- When an UPDATE is answered with a row, it met none and the row is the other answer, or it
-- made the row.
pub answer-ok :
    (g : Guard) (id : Text) (test : Persisted → Bool) (f : Persisted → Persisted) (s s' : Table)
    (m : Result Fault Persisted) (r : Persisted)
    → ((p : Persisted) → p.task.id ≡ id → (f p).task.id ≡ id)
    → answer s m (update_where g id test f s) ≡ (s', ok r)
    → (s' ≡ s) × (m ≡ ok r) ⊎ Made id test f s s' r
answer-ok g id test f s s' m r keeps e = by_row (find id s) refl
  where
    made :
        (p : Persisted)
        → find id s ≡ some p
        → test p ≡ true
        → answer s m (checked_write (g.on_update p (f p)) (f p) (replace (f p) s)) ≡ (s', ok r)
        → Made id test f s s' r
    made p found t e =
        let here : find (f p).task.id s ≡ some p = cc (keeps p (find-id id s found)) in
        (
          p,
          found,
          ground (
            arith,
            scan_task-ok (f p) r,
            find-replace id (f p) s {r = p} here,
            keeps p,
            find-id id s found,
            text_eq_refl id,
          ),
          t,
          ground (arith, scan_task-ok (f p) r),
          ground (arith, scan_task-ok (f p) r),
        )

    by_row : (o : Option Persisted) → find id s ≡ o → (s' ≡ s) × (m ≡ ok r) ⊎ Made id test f s s' r
    by_row none found = ground (arith, update_where-none g id test f s found)
    by_row (some p) found = by_test (test p) refl
      where
        by_test : (b : Bool) → test p ≡ b → (s' ≡ s) × (m ≡ ok r) ⊎ Made id test f s s' r
        by_test true t =
            inr (made p found t (ground (arith, update_where-some g id test f s found)))
        by_test false t = inl (ground (arith, update_where-some g id test f s found))

pub get-ok :
    (id : Text) (s : Table) (r : Persisted)
    → get id s ≡ ok r
    → (find id s ≡ some r) × (scan_task r ≡ ok r)
unfolding get
get-ok id s r e = by_row (find id s) refl
  where
    by_row : (o : Option Persisted) → find id s ≡ o → (find id s ≡ some r) × (scan_task r ≡ ok r)
    by_row none found = ground (arith, e, found)
    by_row (some p) found = ground (arith, e, found, scan_task-ok p r)

queued_already-ok :
    (x : Result Fault Persisted) (r : Persisted)
    → queued_already x ≡ ok r
    → (x ≡ ok r) × (is_queued r.task.status ≡ true)
queued_already-ok x r e = ground arith

-- What is cancelled, or has been asked to cancel.
abbrev pub is_requested : Persisted → Bool
is_requested r =
    is_cancelled r.task.status || is_running r.task.status && is_set r.task.cancel_requested_at

cancelled_already-ok :
    (x : Result Fault Persisted) (r : Persisted)
    → cancelled_already x ≡ ok r
    → (x ≡ ok r) × (is_requested r ≡ true)
cancelled_already-ok x r e = ground arith

-- The state that an accepted request leaves.
request_cancel-Leaves :
    (g : Guard) (id : Text) (at : ℕ) (s s' : Table) (r : Persisted)
    → request_cancel g id at s ≡ (s', ok r)
    → (is_blank id ≡ false) × (find id s' ≡ some r) × (scan_task r ≡ ok r) × (is_requested r ≡ true)
unfolding request_cancel
request_cancel-Leaves g id at s s' r e =
    let run : answer s (cancelled_already (get id s))
          (update_where g id can_cancel (to_cancelled at) s)
        ≡ (s', ok r) =
      ground (arith, e) in
    elim (answer-ok g id can_cancel (to_cancelled at) s s' (cancelled_already (get id s)) r
      (λ _ i. i) run) [
        | inl (same, m) ↦
            let (y, q) = cancelled_already-ok (get id s) r m in
            (ground (arith, e), rw same (get-ok id s r y).0, (get-ok id s r y).1, q)
        | inr (p, _, here, test, is, scan) ↦
            (ground (arith, e), here, scan, ground (arith, test, is))
      ]

queue_pending-Leaves :
    (g : Guard) (id : Text) (s s' : Table) (r : Persisted)
    → queue_pending g id s ≡ (s', ok r)
    → (is_blank id ≡ false)
      × (find id s' ≡ some r)
      × (scan_task r ≡ ok r)
      × (is_queued r.task.status ≡ true)
unfolding queue_pending
queue_pending-Leaves g id s s' r e =
    let run : answer s (queued_already (get id s))
          (update_where g id (λ r. is_pending r.task.status) to_queued s)
        ≡ (s', ok r) =
      ground (arith, e) in
    elim (answer-ok g id (λ r. is_pending r.task.status) to_queued s s' (queued_already (get id s))
      r (λ _ i. i) run) [
        | inl (same, m) ↦
            let (y, q) = queued_already-ok (get id s) r m in
            (ground (arith, e), rw same (get-ok id s r y).0, (get-ok id s r y).1, q)
        | inr (p, _, here, _, is, scan) ↦ (ground (arith, e), here, scan, ground (arith, is))
      ]

-- A cancellation request that was accepted can be repeated at any time: the second answers the same
-- row and changes nothing, its version in particular, whatever the guards.
pub request_cancel-twice :
    (g h : Guard) (id : Text) (at later : ℕ) (s s' : Table) (r : Persisted)
    → request_cancel g id at s ≡ (s', ok r)
    → 0 < later
    → request_cancel h id later s' ≡ (s', ok r)
unfolding request_cancel get
request_cancel-twice g h id at later s s' r e z =
    let (named, here, scan, asked) = request_cancel-Leaves g id at s s' r e in
    ground (
      arith,
      named,
      here,
      scan,
      asked,
      z,
      update_where-some h id can_cancel (to_cancelled later) s' here,
    )

-- Queueing that succeeded can be repeated: the second call answers the same row and changes
-- nothing, whatever the guards.
pub queue_pending-twice :
    (g h : Guard) (id : Text) (s s' : Table) (r : Persisted)
    → queue_pending g id s ≡ (s', ok r)
    → queue_pending h id s' ≡ (s', ok r)
unfolding queue_pending get
queue_pending-twice g h id s s' r e =
    let (named, here, scan, q) = queue_pending-Leaves g id s s' r e in
    ground (
      arith,
      named,
      here,
      scan,
      q,
      update_where-some h id (λ r. is_pending r.task.status) to_queued s' here,
    )

-- Two saves of one task that expect the same version: when the first succeeds, the second,
-- whatever it saves, changes nothing and is refused with STATE_CONFLICT if its own checks
-- pass.
pub save-once :
    (g h : Guard) (value other : Persisted) (expected : ℕ) (s s' : Table) (r : Persisted)
    → other.task.id ≡ value.task.id
    → save g value expected s ≡ (s', ok r)
    → is_ok (persisted_validate other) ≡ true
    → other.task.version ≡ suc expected
    → save h other expected s' ≡ (s', err (code state_conflict))
unfolding save
save-once g h value other expected s s' r same e valid next =
    elim (answer-ok g value.task.id test (saved value) s s' (err (code state_conflict)) r keeps
      run) [
        | inl x ↦ absurd (cc (x.1))
        | inr (p, _, here, _, is, _) ↦
            let found : find other.task.id s' ≡ some r = cc (same, here) in
            ground (
              arith,
              is,
              e,
              valid,
              next,
              update_where-some h other.task.id test (saved other) s' found,
            )
      ]
  where
    test : Persisted → Bool
    test r = r.task.version == expected

    keeps : (p : Persisted) → p.task.id ≡ value.task.id → (saved value p).task.id ≡ value.task.id
    keeps p i = ground arith

    run :
        answer s (err (code state_conflict)) (update_where g value.task.id test (saved value) s)
        ≡ (s', ok r)
    run = ground (arith, e)
