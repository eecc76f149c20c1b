-- ===== src/Task/Batch/Aggregate.antt =====
-- What `AggregateStatus` makes of the states of the children.
use mathlib.Core.List.{Perm, Permᴰ}
use mathlib.Core.Logic.{∥∥₁_elim}
use native.Mathlib.Nat.{ℕ_set}
use switch_manager.Base.{
  suc, ◌+◌, ◌<◌, ◌≡◌, ◌↔◌, refl, Bool, true, false, List, [], ◌∷◌, arith, length, count, count-le,
  all, any, ◌==◌, if◌then◌else◌, ok, err, is_empty, ◌>>=◌, ap, sym, ◌∙◌,
}
use switch_manager.Task.States.{
  Status, success, failed, cancelled, running, queued, is_known, is_terminal, is_running,
  is_success, is_cancelled, is_waiting, partial_success,
}
use switch_manager.Task.Batch.{
  Counts, no_counts, bump, tally, decide, aggregate_status, no_children, retryable_batch_child,
  unsupported_status,
}

abbrev pub is_partial : Status → Bool
is_partial partial_success = true
is_partial _ = false

-- The counters after the loop.
abbrev pub counts_of : Counts → List Status → Counts
counts_of c xs = record {
  success = c.success + count is_success xs;
  partial = c.partial + count is_partial xs;
  failed = c.failed + count retryable_batch_child xs;
  cancelled = c.cancelled + count is_cancelled xs;
  running = c.running + count is_running xs;
  queued = c.queued + count is_waiting xs;
}

-- The first status that is not known, if there is one.
abbrev first_unknown : List Status → Status
first_unknown [] = success
first_unknown (x ∷ xs) = let later = first_unknown xs in if is_known x then later else x

tally-counts :
    (c : Counts) (xs : List Status)
    → tally c xs ≡ (
        if all is_known xs
        then ok (counts_of c xs)
        else err (unsupported_status (first_unknown xs)))
unfolding tally
tally-counts c [] = ground arith
tally-counts c (x ∷ xs) = ground (arith, tally-counts (bump x c) xs)

module _ (p : Status → Bool) where
  all-count : (xs : List Status) → (all p xs ≡ true) ↔ (count p xs ≡ length xs)
  all-count [] = (λ _. refl, λ _. refl)
  all-count (x ∷ xs) = ground (arith, all-count xs, count-le p xs)

  any-count : (xs : List Status) → (any p xs ≡ true) ↔ (0 < count p xs)
  any-count [] = ground arith
  any-count (x ∷ xs) = ground (arith, any-count xs)

-- Every known state is counted once.
counts-length :
    (xs : List Status)
    → all is_known xs ≡ true
    → length xs
      ≡ count is_success xs
        + count is_partial xs
        + count retryable_batch_child xs
        + count is_cancelled xs
        + count is_running xs
        + count is_waiting xs
counts-length [] h = refl
counts-length (x ∷ xs) h = ground (arith, counts-length xs)

terminal-count :
    (xs : List Status)
    → all is_known xs ≡ true
    → count is_terminal xs + count is_running xs + count is_waiting xs ≡ length xs
terminal-count [] h = refl
terminal-count (x ∷ xs) h = ground (arith, terminal-count xs)

-- `AggregateStatus` in closed form.
aggregate_status-closed :
    (xs : List Status)
    → aggregate_status xs ≡ (
        if is_empty xs
        then err no_children
        else if all is_known xs
        then ok (decide (length xs) (counts_of no_counts xs))
        else err (unsupported_status (first_unknown xs)))
unfolding aggregate_status
aggregate_status-closed [] = refl
aggregate_status-closed (x ∷ xs) =
    rw (tally-counts no_counts (x ∷ xs)) (split (all is_known (x ∷ xs)))
  where
    split :
        (b : Bool)
        → ((if b
              then ok (counts_of no_counts (x ∷ xs))
              else err (unsupported_status (first_unknown (x ∷ xs))))
            >>= λ c. ok (decide (length (x ∷ xs)) c))
          ≡ (if b
              then ok (decide (length (x ∷ xs)) (counts_of no_counts (x ∷ xs)))
              else err (unsupported_status (first_unknown (x ∷ xs))))
    split b = ground arith

aggregate_status-decide :
    (xs : List Status) {s : Status}
    → aggregate_status xs ≡ ok s
    → (all is_known xs ≡ true) × (0 < length xs) × (s ≡ decide (length xs) (counts_of no_counts xs))
aggregate_status-decide [] h = ground (arith, aggregate_status-closed [])
aggregate_status-decide (x ∷ xs) h = ground (arith, aggregate_status-closed (x ∷ xs))

aggregate_status-terminal :
    (xs : List Status) (s : Status)
    → aggregate_status xs ≡ ok s
    → is_terminal s ≡ all is_terminal xs
unfolding decide
aggregate_status-terminal xs s h =
    let (k, n, e) = aggregate_status-decide xs h in
    ground (arith, all-count is_terminal xs, terminal-count xs k, counts-length xs k)

-- What the status of a batch says of its children, and the other way round: it is running exactly
-- when one of them is, queued when none is running and one waits, successful, failed or cancelled
-- when all of them are (an interrupted child counts as failed), and over exactly when every child
-- is.
pub aggregate_status-says :
    (xs : List Status) (s : Status)
    → aggregate_status xs ≡ ok s
    → ((s ≡ running) ↔ (any is_running xs ≡ true))
      × ((s ≡ queued) ↔ ((any is_running xs ≡ false) × (any is_waiting xs ≡ true)))
      × ((s ≡ success) ↔ (all is_success xs ≡ true))
      × ((s ≡ failed) ↔ (all retryable_batch_child xs ≡ true))
      × ((s ≡ cancelled) ↔ (all is_cancelled xs ≡ true))
      × (is_terminal s ≡ all is_terminal xs)
unfolding decide
aggregate_status-says xs s h =
    let (k, n, e) = aggregate_status-decide xs h in
    let c = counts-length xs k in
    (
      ground (arith, any-count is_running xs),
      ground (arith, any-count is_running xs, any-count is_waiting xs),
      ground (arith, all-count is_success xs),
      ground (arith, all-count retryable_batch_child xs),
      ground (arith, all-count is_cancelled xs),
      aggregate_status-terminal xs s h,
    )

countᴰ-perm : (p : Status → Bool) {xs ys : List Status} → Permᴰ xs ys → count p xs ≡ count p ys
countᴰ-perm p Permᴰ.nil = refl
countᴰ-perm p (Permᴰ.cons {a} {b} e r) = ground (arith, ap p e, countᴰ-perm p r)
countᴰ-perm p (Permᴰ.swap e f) = ground (arith, ap p e, ap p f)
countᴰ-perm p (Permᴰ.trans r t) = countᴰ-perm p r ∙ countᴰ-perm p t

count-perm : (p : Status → Bool) {xs ys : List Status} → Perm xs ys → count p xs ≡ count p ys
count-perm p h = ∥∥₁_elim h (ℕ_set _ _) (countᴰ-perm p)

length-count : (xs : List Status) → count (λ _. true) xs ≡ length xs
length-count [] = refl
length-count (x ∷ xs) = ap suc (length-count xs)

is_empty-length : (xs : List Status) → is_empty xs ≡ (length xs == 0)
is_empty-length [] = refl
is_empty-length (x ∷ xs) = ground arith

all_of_count : (p : Status → Bool) (xs : List Status) → all p xs ≡ (count p xs == length xs)
all_of_count p xs = ground (arith, all-count p xs)

rearranged :
    (xs ys : List Status) (s : Status)
    → ((p : Status → Bool) → count p xs ≡ count p ys)
    → aggregate_status xs ≡ ok s
    → aggregate_status ys ≡ ok s
unfolding decide
rearranged xs ys s h e =
    let (known, some, is) = aggregate_status-decide xs e in
    let n : length xs ≡ length ys = sym (length-count xs) ∙ h (λ _. true) ∙ length-count ys in
    ground (
      arith,
      aggregate_status-closed ys,
      is_empty-length ys,
      all_of_count is_known xs,
      all_of_count is_known ys,
      n,
      h is_known,
      h is_success,
      h is_partial,
      h retryable_batch_child,
      h is_cancelled,
      h is_running,
      h is_waiting,
      known,
      some,
      is,
    )

-- The order of the children does not matter for the aggregated status: a rearrangement of the
-- children has the same one, or none if they have none.
pub aggregate_status-perm :
    {xs ys : List Status} (s : Status)
    → Perm xs ys
    → (aggregate_status xs ≡ ok s) ↔ (aggregate_status ys ≡ ok s)
aggregate_status-perm {xs} {ys} s h =
    (rearranged xs ys s (λ p. count-perm p h), rearranged ys xs s (λ p. sym (count-perm p h)))
