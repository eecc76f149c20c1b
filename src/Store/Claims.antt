-- ===== src/Store/Claims.antt =====
-- Which task ClaimNextQueued takes.
use switch_manager.Base.{
  ℕ, ◌≡◌, refl, Bool, true, false, [], ◌∷◌, Option, none, some, arith, ok, err, ◌||◌, inl, inr,
}
use switch_manager.Base.Text.{Text}
use switch_manager.Task.States.{is_queued}
use switch_manager.Task.{Persisted}
use switch_manager.Store.Rows.{
  Table, Unique, find, replace, text_lt, precedes, oldest, filter_rows, oldest-found,
  replace-Unique,
}
use switch_manager.Store.Updates.{update_where-none, update_where-some}
use switch_manager.Store.Requests.{answer-ok}
use switch_manager.Store.{
  Guard, no_queued_task, to_running, free, start_candidate, claim_next_queued,
}

text_lt-split : (x y z : Text) → text_lt x z ≡ true → text_lt x y || text_lt y z ≡ true
unfolding text_lt
text_lt-split [] [] z h = ground arith
text_lt-split [] (b ∷ y) [] h = ground arith
text_lt-split [] (b ∷ y) (c ∷ z) h = ground arith
text_lt-split (a ∷ x) [] z h = ground arith
text_lt-split (a ∷ x) (b ∷ y) [] h = ground arith
text_lt-split (a ∷ x) (b ∷ y) (c ∷ z) h = ground (arith, text_lt-split x y z)

text_lt-asym : (x y : Text) → text_lt x y ≡ true → text_lt y x ≡ false
unfolding text_lt
text_lt-asym [] [] h = ground arith
text_lt-asym [] (b ∷ y) h = ground arith
text_lt-asym (a ∷ x) [] h = ground arith
text_lt-asym (a ∷ x) (b ∷ y) h = ground (arith, text_lt-asym x y)

precedes-split : (p q r : Persisted) → precedes p r ≡ true → precedes p q || precedes q r ≡ true
unfolding precedes
precedes-split p q r h = ground (arith, text_lt-split p.task.id q.task.id r.task.id)

precedes-asym : (p q : Persisted) → precedes p q ≡ true → precedes q p ≡ false
unfolding precedes
precedes-asym p q h = ground (arith, text_lt-asym p.task.id q.task.id)

oldest-none :
    (test : Persisted → Bool) (s : Table) (p : Persisted) (id : Text)
    → oldest (filter_rows test s) ≡ none
    → find id s ≡ some p
    → test p ≡ false
unfolding oldest filter_rows find
oldest-none test [] p id h f = absurd (cc)
oldest-none test (x ∷ s) p id h f = ground (arith, oldest-none test s p id)

-- No row that the query finds comes before the one that it picks.
oldest-first :
    (test : Persisted → Bool) (s : Table) (c p : Persisted) (id : Text)
    → oldest (filter_rows test s) ≡ some c
    → find id s ≡ some p
    → test p ≡ true
    → precedes p c ≡ false
unfolding oldest filter_rows find
oldest-first test [] c p id h f t = absurd (cc)
oldest-first test (x ∷ s) c p id h f t =
    by_rest (oldest (filter_rows test s)) refl (λ m e i. oldest-first test s m p id e i t)
  where
    by_rest :
        (o : Option Persisted)
        → oldest (filter_rows test s) ≡ o
        → ((m : Persisted)
            → oldest (filter_rows test s) ≡ some m
            → find id s ≡ some p
            → precedes p m ≡ false)
        → precedes p c ≡ false
    by_rest none e later = ground (arith, h, f, oldest-none test s p id e, precedes-asym p p)
    by_rest (some m) e later = ground (
      arith,
      h,
      f,
      later m e,
      precedes-asym p p,
      precedes-asym x m,
      precedes-asym m x,
      precedes-split p m x,
      precedes-split p x m,
      precedes-split x m p,
    )

-- What a successful claim of `r` at the time `at` took: a row `c` of the table.
abbrev pub Claimed : (Persisted → Bool) → ℕ → Table → Table → Persisted → Persisted → Type 0
Claimed locked at s s' r c =
    (r ≡ to_running at c)
    × (find c.task.id s ≡ some c)
    × (is_queued c.task.status ≡ true)
    × (locked c ≡ false)
    × (find r.task.id s' ≡ some r)
    × ((id : Text) (p : Persisted)
        → find id s ≡ some p
        → is_queued p.task.status ≡ true
        → locked p ≡ false
        → precedes p c ≡ false)

-- A claim that succeeds makes running a queued row that no other transaction has locked, and
-- none of the rows of that kind is older: by the creation time, then the ID. IDs are unique.
pub claim-Claimed :
    (g : Guard) (locked : Persisted → Bool) (at : ℕ) (s s' : Table) (r : Persisted)
    → Unique s
    → claim_next_queued g locked at s ≡ (s', ok r)
    → (c : Persisted) × Claimed locked at s s' r c
unfolding claim_next_queued
claim-Claimed g locked at s s' r u e =
    by_pick (oldest (filter_rows (free locked) s)) refl (ground (arith, e))
  where
    by_pick :
        (o : Option Persisted)
        → oldest (filter_rows (free locked) s) ≡ o
        → start_candidate g at s o ≡ (s', ok r)
        → (c : Persisted) × Claimed locked at s s' r c
    by_pick none pick run = absurd (ground (arith, run))
    by_pick (some c) pick run =
        let (found, test) = oldest-found (free locked) s u pick in
        elim (answer-ok g c.task.id (λ _. true) (to_running at) s s' (err no_queued_task) r
          (λ _ i. i) run) [
            | inl x ↦ absurd (ground (arith, x.1))
            | inr (p, f, here, _, is, _) ↦
                let same : p ≡ c = ground (arith, f, found) in
                let made : r ≡ to_running at c = cc (is, same) in
                let id : r.task.id ≡ c.task.id = cc (made) in
                (
                  c,
                  (
                    made,
                    found,
                    ground (arith, test),
                    ground (arith, test),
                    cc (id, here),
                    λ i p f q l. oldest-first (free locked) s c p i pick f (ground (arith, q, l)),
                  ),
                )
          ]

claim-Unique :
    (g : Guard) (locked : Persisted → Bool) (at : ℕ) (s s' : Table) (r : Persisted)
    → Unique s
    → claim_next_queued g locked at s ≡ (s', ok r)
    → Unique s'
unfolding claim_next_queued
claim-Unique g locked at s s' r u e =
    by_pick (oldest (filter_rows (free locked) s)) (ground (arith, e))
  where
    by_row :
        (c : Persisted) (o : Option Persisted)
        → find c.task.id s ≡ o
        → start_candidate g at s (some c) ≡ (s', ok r)
        → Unique s'
    by_row c none f run =
        absurd (ground (arith, run, update_where-none g c.task.id (λ _. true) (to_running at) s f))
    by_row c (some p) f run =
        let is : s' ≡ replace (to_running at p) s =
          ground (arith, run, update_where-some g c.task.id (λ _. true) (to_running at) s f) in
        rw is (replace-Unique (to_running at p) s u)

    by_pick : (o : Option Persisted) → start_candidate g at s o ≡ (s', ok r) → Unique s'
    by_pick none run = absurd (ground (arith, run))
    by_pick (some c) run = by_row c (find c.task.id s) refl run

-- No task is claimed twice: of two claims that follow each other and succeed, by whatever workers,
-- the second takes another task. IDs are unique.
pub claims-differ :
    (g h : Guard) (locked held : Persisted → Bool) (at later : ℕ) (s s' s'' : Table)
    (r q : Persisted)
    → Unique s
    → claim_next_queued g locked at s ≡ (s', ok r)
    → claim_next_queued h held later s' ≡ (s'', ok q)
    → ¬ (q.task.id ≡ r.task.id)
claims-differ g h locked held at later s s' s'' r q u first second same =
    let (c, (made, _, _, _, here, _)) = claim-Claimed g locked at s s' r u first in
    let u' = claim-Unique g locked at s s' r u first in
    let (d, (next, found, waits, _, _, _)) = claim-Claimed h held later s' s'' q u' second in
    let id : q.task.id ≡ d.task.id = cc next in
    let one : d ≡ r = ground (arith, same, id, here, found) in ground (arith, one, made, waits)
