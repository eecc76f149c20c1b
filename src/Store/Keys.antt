-- ===== src/Store/Keys.antt =====
-- The primary key of the table of tasks under the updates of task_repository.go.
use switch_manager.Base.{
  ℕ, ◌≡◌, refl, Bool, true, false, [], ◌∷◌, Option, none, some, arith, Result, ok, err,
  if◌then◌else◌, ◌==◌, ◌||◌, ltb, not, is_ok, suc, ◌⊎◌, inl, inr,
}
use switch_manager.Base.Text.{Text, is_blank}
use switch_manager.AppError.{Code, validation_error, state_conflict}
use switch_manager.Task.States.{is_pending}
use switch_manager.Task.{Persisted, persisted_validate}
use switch_manager.Store.Rows.{Table, Unique, find, replace, filter_rows, oldest, replace-Unique}
use switch_manager.Store.Updates.{after, answer-after, update_where-none, update_where-some}
use switch_manager.Store.Legal.{Call, queue, cancel, claim, interrupt, run}
use switch_manager.Store.{
  Guard, Fault, Answer, answer, code, affected, checked_write, no_rows, update_where, queue_pending,
  request_cancel, claim_next_queued, interrupt_running, interrupt_rows, to_interrupted,
  start_candidate, free, queued_already, cancelled_already, get, to_queued, can_cancel,
  to_cancelled, to_running, no_queued_task, save, saved,
}

after-Unique :
    (g : Guard) (id : Text) (test : Persisted → Bool) (f : Persisted → Persisted) (s : Table)
    → Unique s
    → Unique (after s (update_where g id test f s))
after-Unique g id test f s u = by_row (find id s) refl
  where
    by_guard :
        (r : Persisted) (o : Option Code)
        → Unique (after s (checked_write o (f r) (replace (f r) s)))
    by_guard r none = replace-Unique (f r) s u
    by_guard r (some c) = u

    by_test :
        (r : Persisted) (b : Bool)
        → Unique (
            after s
              (if b then checked_write (g.on_update r (f r)) (f r) (replace (f r) s) else no_rows))
    by_test r true = by_guard r (g.on_update r (f r))
    by_test r false = u

    by_row : (o : Option Persisted) → find id s ≡ o → Unique (after s (update_where g id test f s))
    by_row none e = rw (update_where-none g id test f s e) u
    by_row (some r) e = rw (update_where-some g id test f s e) (by_test r (test r))

answer-Unique :
    (g : Guard) (id : Text) (test : Persisted → Bool) (f : Persisted → Persisted) (s : Table)
    (m : Result Fault Persisted)
    → Unique s
    → Unique (answer s m (update_where g id test f s)).0
answer-Unique g id test f s m u =
    rw (answer-after s m (update_where g id test f s)) (after-Unique g id test f s u)

if-Unique : (b : Bool) (x y : Answer) → Unique x.0 → Unique y.0 → Unique (if b then x else y).0
if-Unique true x y p q = p
if-Unique false x y p q = q

-- Rows under other IDs than those that the statement meets keep theirs.
interrupt_rows-none :
    (g : Guard) (at : ℕ) (s s' : Table) (n : ℕ) (id : Text)
    → interrupt_rows g at s ≡ ok (s', n)
    → find id s ≡ none
    → find id s' ≡ none
unfolding interrupt_rows find
interrupt_rows-none g at [] s' n id e h = ground (arith, e)
interrupt_rows-none g at (x ∷ s) s' n id e h =
    by_rest (interrupt_rows g at s) refl (λ t m. interrupt_rows-none g at s t m id)
  where
    by_rest :
        (o : Result Code (Table × ℕ))
        → interrupt_rows g at s ≡ o
        → ((t : Table) (m : ℕ)
            → interrupt_rows g at s ≡ ok (t, m)
            → find id s ≡ none
            → find id t ≡ none)
        → find id s' ≡ none
    by_rest (err c) f ih = ground arith
    by_rest (ok (t, m)) f ih = ground (arith, ih t m f)

interrupt_rows-Unique :
    (g : Guard) (at : ℕ) (s s' : Table) (n : ℕ)
    → interrupt_rows g at s ≡ ok (s', n)
    → Unique s
    → Unique s'
unfolding interrupt_rows Unique
interrupt_rows-Unique g at [] s' n e u = let is : s' ≡ [] = ground (arith, e) in rw is tt
interrupt_rows-Unique g at (x ∷ s) s' n e u =
    by_rest (interrupt_rows g at s) refl (λ t m. interrupt_rows-Unique g at s t m)
  where
    by_rest :
        (o : Result Code (Table × ℕ))
        → interrupt_rows g at s ≡ o
        → ((t : Table) (m : ℕ) → interrupt_rows g at s ≡ ok (t, m) → Unique s → Unique t)
        → Unique s'
    by_rest (err c) f ih = absurd (ground (arith, e))
    by_rest (ok (t, m)) f ih =
        let cases : (s' ≡ to_interrupted at x ∷ t) ⊎ (s' ≡ x ∷ t) = ground (arith, e, f) in
        let left = interrupt_rows-none g at s t m x.task.id f u.0 in
        let distinct = ih t m f u.1 in
        elim cases [ inl is ↦ rw is (left, distinct) | inr is ↦ rw is (left, distinct) ]

-- The four calls and `Save` keep the IDs unique.
pub run-Unique : (g : Guard) (c : Call) (s : Table) → Unique s → Unique (run g c s)
unfolding queue_pending request_cancel claim_next_queued interrupt_running
run-Unique g (queue id) s u =
    if-Unique (is_blank id) _ _ u
      (answer-Unique g id (λ r. is_pending r.task.status) to_queued s (queued_already (get id s)) u)
run-Unique g (cancel id at) s u =
    if-Unique (is_blank id || at == 0) _ _ u
      (answer-Unique g id can_cancel (to_cancelled at) s (cancelled_already (get id s)) u)
run-Unique g (claim locked at) s u =
    if-Unique (at == 0) _ _ u (by_pick (oldest (filter_rows (free locked) s)))
  where
    by_pick : (o : Option Persisted) → Unique (start_candidate g at s o).0
    by_pick none = u
    by_pick (some c) =
        answer-Unique g c.task.id (λ _. true) (to_running at) s (err no_queued_task) u
run-Unique g (interrupt at) s u = by_time (at == 0)
  where
    by_rows : (o : Result Code (Table × ℕ)) → interrupt_rows g at s ≡ o → Unique (affected s o).0
    by_rows (err c) e = u
    by_rows (ok (t, n)) e = interrupt_rows-Unique g at s t n e u

    by_time :
        (b : Bool)
        → Unique
            (if b then (s, err (code validation_error)) else affected s (interrupt_rows g at s)).0
    by_time true = u
    by_time false = by_rows (interrupt_rows g at s) refl

pub save-Unique :
    (g : Guard) (v : Persisted) (expected : ℕ) (s : Table)
    → Unique s
    → Unique (save g v expected s).0
unfolding save
save-Unique g v expected s u =
    if-Unique (ltb expected 1 || not (v.task.version == suc expected)) _ _ u (
      if-Unique (is_ok (persisted_validate v)) _ _
        (answer-Unique g v.task.id (λ r. r.task.version == expected) (saved v) s
          (err (code state_conflict)) u)
        u)
