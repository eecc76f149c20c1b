-- ===== src/Store/Updates.antt =====
-- What the UPDATEs of task_repository.go leave in the table, row by row.
use switch_manager.Base.{
  ◌≡◌, refl, Bool, true, Option, none, some, ◌⊎◌, inl, if◌then◌else◌, arith, Result,
}
use switch_manager.Base.Text.{Text, text_eq_iff}
use switch_manager.Task.{Persisted}
use switch_manager.Store.Rows.{Table, find, replace, find-id, find-replace}
use switch_manager.Store.{
  Guard, Fault, Updated, no_rows, refused, written, update_where, checked_write, answer,
}

-- The table after the UPDATE.
abbrev pub after : Table → Updated → Table
after s no_rows = s
after s (refused c) = s
after s (written r s') = s'

pub answer-after :
    (s : Table) (m : Result Fault Persisted) (u : Updated) → (answer s m u).0 ≡ after s u
answer-after s m no_rows = refl
answer-after s m (refused c) = refl
answer-after s m (written r s') = refl

pub update_where-none :
    (g : Guard) (id : Text) (test : Persisted → Bool) (f : Persisted → Persisted) (s : Table)
    → find id s ≡ none
    → update_where g id test f s ≡ no_rows
unfolding update_where
update_where-none g id test f s h = rw (h, update_where)

pub update_where-some :
    (g : Guard) (id : Text) (test : Persisted → Bool) (f : Persisted → Persisted) (s : Table)
    {r : Persisted}
    → find id s ≡ some r
    → update_where g id test f s
      ≡ (if test r then checked_write (g.on_update r (f r)) (f r) (replace (f r) s) else no_rows)
unfolding update_where
update_where-some g id test f s h = rw (h, update_where)

-- After an UPDATE a row is as it was, or it passed the test and is what the UPDATE makes of it.
pub after-kept :
    (g : Guard) (id : Text) (test : Persisted → Bool) (f : Persisted → Persisted)
    → ((r : Persisted) → r.task.id ≡ id → (f r).task.id ≡ id)
    → (s : Table) → (other : Text) → {r : Persisted} → find other s ≡ some r
    → let s' = after s (update_where g id test f s) in
      (find other s' ≡ some r)
      ⊎ (test r ≡ true) × (find id s ≡ some r) × (find other s' ≡ some (f r))
after-kept g id test f keeps s other {r} h = by_row (find id s) refl
  where
    by_row :
        (o : Option Persisted)
        → find id s ≡ o
        → let s' = after s (update_where g id test f s) in
          (find other s' ≡ some r)
          ⊎ (test r ≡ true) × (find id s ≡ some r) × (find other s' ≡ some (f r))
    by_row none e = rw (update_where-none g id test f s e) (inl h)
    by_row (some old) e =
        let found : find (f old).task.id s ≡ some old = cc (keeps old (find-id id s e)) in
        rw (update_where-some g id test f s e) (
          ground (
            arith,
            e,
            h,
            keeps old (find-id id s e),
            find-id id s e,
            find-replace other (f old) s {r = old} found,
            text_eq_iff (f old).task.id other,
          ))
