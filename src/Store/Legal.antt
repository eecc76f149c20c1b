-- ===== src/Store/Legal.antt =====
-- What QueuePending, RequestCancel, ClaimNextQueued and InterruptRunning do to each row.
use switch_manager.Base.{
  ℕ, suc, ◌≡◌, refl, Bool, true, false, [], ◌∷◌, Option, none, some, ◌⊎◌, inl, inr, arith, Result,
  ok, err, ◌||◌, ◌==◌, if◌then◌else◌,
}
use switch_manager.Base.Text.{Text, is_blank}
use switch_manager.AppError.{Code, validation_error}
use switch_manager.Task.States.{is_running, is_waiting, is_pending, is_queued, can_transition_to}
use switch_manager.Task.{Persisted, is_set}
use switch_manager.Store.Rows.{Table, Unique, find, filter_rows, oldest, oldest-found}
use switch_manager.Store.Updates.{answer-after, after-kept}
use switch_manager.Store.{
  Answer, start_candidate, free, affected, code, no_queued_task, Fault, Guard, update_where,
  to_queued, can_cancel, to_cancelled, to_running, to_interrupted, interruptible, interrupt_rows,
  interrupt_running, queue_pending, request_cancel, claim_next_queued, queued_already,
  cancelled_already, get, answer, code, no_queued_task,
}

-- What a row may become: it stays, it moves along the life cycle, or a cancellation request
-- is recorded in a running one. A change counts the version up.
infix 40 ◌⇒◌
pub data ◌⇒◌ : Persisted → Persisted → Type 0 where
  stays : {r : Persisted} → r ⇒ r
  moves :
      {r q : Persisted}
      → can_transition_to r.task.status q.task.status ≡ true
      → q.task.version ≡ suc r.task.version
      → r ⇒ q
  asks :
      {r q : Persisted}
      → is_running r.task.status ≡ true
      → q.task.status ≡ r.task.status
      → is_set r.task.cancel_requested_at ≡ false
      → is_set q.task.cancel_requested_at ≡ true
      → q.task.version ≡ suc r.task.version
      → r ⇒ q

to_queued-⇒ : (r : Persisted) → is_pending r.task.status ≡ true → r ⇒ to_queued r
to_queued-⇒ r h = moves (ground arith) refl

to_running-⇒ : (at : ℕ) (r : Persisted) → is_queued r.task.status ≡ true → r ⇒ to_running at r
to_running-⇒ at r h = moves (ground arith) refl

to_interrupted-⇒ : (at : ℕ) (r : Persisted) → interruptible at r ≡ true → r ⇒ to_interrupted at r
to_interrupted-⇒ at r h = moves (ground arith) refl

to_cancelled-⇒ : (at : ℕ) (r : Persisted) → can_cancel r ≡ true → r ⇒ to_cancelled at r
to_cancelled-⇒ at r h = by_state (is_waiting r.task.status) refl
  where
    by_state : (b : Bool) → is_waiting r.task.status ≡ b → r ⇒ to_cancelled at r
    by_state true e = moves (ground arith) refl
    by_state false e = asks (ground arith) (ground arith) (ground arith) refl refl

-- One of the four calls, and the table that it leaves.
pub data Call : Type 0 where
  queue : Text → Call
  cancel : Text → ℕ → Call
  claim : (Persisted → Bool) → ℕ → Call
  interrupt : ℕ → Call

abbrev pub run : Guard → Call → Table → Table
run g (queue id) s = (queue_pending g id s).0
run g (cancel id at) s = (request_cancel g id at s).0
run g (claim locked at) s = (claim_next_queued g locked at s).0
run g (interrupt at) s = (interrupt_running g at s).0

abbrev Interrupted : ℕ → Text → Persisted → Table → Type 0
Interrupted at other r s' =
    (find other s' ≡ some r)
    ⊎ (interruptible at r ≡ true) × (find other s' ≡ some (to_interrupted at r))

interrupt_rows-kept :
    (g : Guard) (at : ℕ) (s s' : Table) (n : ℕ) (other : Text) {r : Persisted}
    → interrupt_rows g at s ≡ ok (s', n)
    → find other s ≡ some r
    → Interrupted at other r s'
unfolding interrupt_rows find
interrupt_rows-kept g at [] s' n other e h = absurd (cc)
interrupt_rows-kept g at (x ∷ s) s' n other {r} e h =
    by_rest (interrupt_rows g at s) refl (λ t m. interrupt_rows-kept g at s t m other {r = r})
  where
    by_rest :
        (o : Result Code (Table × ℕ))
        → interrupt_rows g at s ≡ o
        → ((t : Table) (m : ℕ)
            → interrupt_rows g at s ≡ ok (t, m)
            → find other s ≡ some r
            → Interrupted at other r t)
        → Interrupted at other r s'
    by_rest (err c) f ih = ground arith
    by_rest (ok (t, m)) f ih = ground (arith, ih t m f)

-- The row under `other` was `r`; in `s'` it is one that `r` may become.
abbrev pub Lawful : Text → Persisted → Table → Type 0
Lawful other r s' = (q : Persisted) × (find other s' ≡ some q) × (r ⇒ q)

answer-Lawful :
    (g : Guard) (id : Text) (test : Persisted → Bool) (f : Persisted → Persisted) (s : Table)
    (m : Result Fault Persisted) (other : Text) (r : Persisted)
    → ((p : Persisted) → (f p).task.id ≡ p.task.id)
    → (find id s ≡ some r → test r ≡ true → r ⇒ f r)
    → find other s ≡ some r
    → Lawful other r (answer s m (update_where g id test f s)).0
answer-Lawful g id test f s m other r keeps change h =
    rw (answer-after s m (update_where g id test f s))
      (elim (after-kept g id test f (λ p i. cc (keeps p, i)) s other {r = r} h) [
        | inl e ↦ (r, e, stays)
        | inr e ↦ (f r, e.2, change e.1 e.0)
      ])

if-Lawful :
    (b : Bool) (x y : Answer) (other : Text) (r : Persisted)
    → Lawful other r x.0
    → Lawful other r y.0
    → Lawful other r (if b then x else y).0
if-Lawful true x y other r p q = p
if-Lawful false x y other r p q = q

queue-Lawful :
    (g : Guard) (id : Text) (s : Table) (other : Text) (r : Persisted)
    → find other s ≡ some r
    → Lawful other r (queue_pending g id s).0
unfolding queue_pending
queue-Lawful g id s other r h =
    if-Lawful (is_blank id) _ _ other r (r, h, stays)
      (answer-Lawful g id (λ r. is_pending r.task.status) to_queued s (queued_already (get id s))
        other r (λ _. refl) (λ _. to_queued-⇒ r) h)

cancel-Lawful :
    (g : Guard) (id : Text) (at : ℕ) (s : Table) (other : Text) (r : Persisted)
    → find other s ≡ some r
    → Lawful other r (request_cancel g id at s).0
unfolding request_cancel
cancel-Lawful g id at s other r h =
    if-Lawful (is_blank id || at == 0) _ _ other r (r, h, stays)
      (answer-Lawful g id can_cancel (to_cancelled at) s (cancelled_already (get id s)) other r
        (λ _. refl) (λ _. to_cancelled-⇒ at r) h)

claim-Lawful :
    (g : Guard) (locked : Persisted → Bool) (at : ℕ) (s : Table) (other : Text) (r : Persisted)
    → Unique s
    → find other s ≡ some r
    → Lawful other r (claim_next_queued g locked at s).0
unfolding claim_next_queued
claim-Lawful g locked at s other r u h =
    if-Lawful (at == 0) _ _ other r (r, h, stays)
      (by_row (oldest (filter_rows (free locked) s)) refl)
  where
    by_row :
        (o : Option Persisted)
        → oldest (filter_rows (free locked) s) ≡ o
        → Lawful other r (start_candidate g at s o).0
    by_row none e = (r, h, stays)
    by_row (some c) e =
        let found = oldest-found (free locked) s u e in
        answer-Lawful g c.task.id (λ _. true) (to_running at) s (err no_queued_task) other r
          (λ _. refl) (λ f _. to_running-⇒ at r (ground (arith, found, f))) h

interrupt-Lawful :
    (g : Guard) (at : ℕ) (s : Table) (other : Text) (r : Persisted)
    → find other s ≡ some r
    → Lawful other r (interrupt_running g at s).0
unfolding interrupt_running
interrupt-Lawful g at s other r h = by_time (at == 0)
  where
    by_rows :
        (o : Result Code (Table × ℕ)) → interrupt_rows g at s ≡ o → Lawful other r (affected s o).0
    by_rows (err c) e = (r, h, stays)
    by_rows (ok (t, n)) e = elim (interrupt_rows-kept g at s t n other {r = r} e h) [
      | inl e ↦ (r, e, stays)
      | inr e ↦ (to_interrupted at r, e.1, to_interrupted-⇒ at r e.0)
    ]

    by_time :
        (b : Bool)
        → Lawful other r
            (if b then (s, err (code validation_error)) else affected s (interrupt_rows g at s)).0
    by_time true = (r, h, stays)
    by_time false = by_rows (interrupt_rows g at s) refl

-- Whatever the guard and the locks are: after any of the four calls a row that the table had is
-- still there, and it is as it was, or one step further in the life cycle, or a running
-- row with a cancellation request; each change counts the version up by one. IDs are unique.
pub run-Lawful :
    (g : Guard) (c : Call) (s : Table) (other : Text) (r : Persisted)
    → Unique s
    → find other s ≡ some r
    → Lawful other r (run g c s)
run-Lawful g (queue id) s other r u h = queue-Lawful g id s other r h
run-Lawful g (cancel id at) s other r u h = cancel-Lawful g id at s other r h
run-Lawful g (claim locked at) s other r u h = claim-Lawful g locked at s other r u h
run-Lawful g (interrupt at) s other r u h = interrupt-Lawful g at s other r h
