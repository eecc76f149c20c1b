-- ===== src/Store/Insertion.antt =====
-- What Create leaves in the table of tasks.
use switch_manager.Base.{
  ◌≡◌, refl, Bool, true, false, [], ◌∷◌, ◌++◌, any, Option, none, some, arith, err, if◌then◌else◌,
  is_ok,
}
use switch_manager.Base.Text.{Text, text_eq, text_eq_iff}
use switch_manager.AppError.{Code, state_conflict, idempotency_conflict}
use switch_manager.Task.{Persisted, persisted_validate}
use switch_manager.Store.Rows.{Table, Unique, find}
use switch_manager.Store.{
  Guard, Answer, code, create, insert, invalid, scan_task, same_request, with_version, with_payload,
}

-- A row whose ID is new goes to the end.
find-append :
    (id : Text) (s : Table) (p : Persisted) {r : Persisted}
    → find id s ≡ some r
    → find id (s ++ p ∷ []) ≡ some r
unfolding find
find-append id [] p h = absurd (cc)
find-append id (x ∷ s) p {r} h = ground (arith, find-append id s p {r = r})

find-append-none :
    (id : Text) (s : Table) (p : Persisted)
    → find id s ≡ none
    → text_eq id p.task.id ≡ false
    → find id (s ++ p ∷ []) ≡ none
unfolding find
find-append-none id [] p h n = ground (arith, n, text_eq_iff id p.task.id, text_eq_iff p.task.id id)
find-append-none id (x ∷ s) p h n = ground (arith, find-append-none id s p)

append-Unique :
    (s : Table) (p : Persisted)
    → any (λ r. text_eq r.task.id p.task.id) s ≡ false
    → Unique s
    → Unique (s ++ p ∷ [])
unfolding Unique find
append-Unique [] p h u = (refl, tt)
append-Unique (x ∷ s) p h u = (
  find-append-none x.task.id s p u.0 (ground (arith, h)),
  append-Unique s p (ground (arith, h)) u.1,
)

-- The IDs of `t` are unique, and it has each row of `s` as it was.
abbrev pub Extends : Table → Table → Type 0
Extends s t = Unique t × ((id : Text) (r : Persisted) → find id s ≡ some r → find id t ≡ some r)

insert-Extends : (g : Guard) (p : Persisted) (s : Table) → Unique s → Extends s (insert g p s).0
unfolding insert
insert-Extends g p s u = by_id (any (λ r. text_eq r.task.id p.task.id) s) refl
  where
    by_guard :
        (o : Option Code)
        → any (λ r. text_eq r.task.id p.task.id) s ≡ false
        → Extends s
            (elim o as (λ _. Answer) [
              | some c ↦ (s, err (code c))
              | none ↦ (s ++ p ∷ [], scan_task p)
            ]).0
    by_guard none h = (append-Unique s p h u, λ id r f. find-append id s p f)
    by_guard (some c) h = (u, λ id r f. f)

    by_request :
        (b : Bool)
        → any (λ r. text_eq r.task.id p.task.id) s ≡ false
        → Extends s
            (if b
              then (s, err (code idempotency_conflict))
              else elim (g.on_insert p) as (λ _. Answer) [
                | some c ↦ (s, err (code c))
                | none ↦ (s ++ p ∷ [], scan_task p)
              ]).0
    by_request true h = (u, λ id r f. f)
    by_request false h = by_guard (g.on_insert p) h

    by_id :
        (b : Bool)
        → any (λ r. text_eq r.task.id p.task.id) s ≡ b
        → Extends s
            (if b
              then (s, err (code state_conflict))
              else if any (same_request p) s
              then (s, err (code idempotency_conflict))
              else elim (g.on_insert p) as (λ _. Answer) [
                | some c ↦ (s, err (code c))
                | none ↦ (s ++ p ∷ [], scan_task p)
              ]).0
    by_id true h = (u, λ id r f. f)
    by_id false h = by_request (any (same_request p) s) h

-- `Create` adds a row at most.
pub create-Extends : (g : Guard) (v : Persisted) (s : Table) → Unique s → Extends s (create g v s).0
unfolding create
create-Extends g v s u = by_valid (is_ok (persisted_validate (with_version (with_payload v))))
  where
    by_valid :
        (b : Bool)
        → Extends s (if b then insert g (with_version (with_payload v)) s else invalid s).0
    by_valid true = insert-Extends g (with_version (with_payload v)) s u
    by_valid false = (u, λ id r f. f)
