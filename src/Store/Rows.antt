-- ===== src/Store/Rows.antt =====
-- The rows of the table `tasks`, which has one row for an ID, and what SQL does with them: find by
-- ID, replace, filter, and ORDER BY created_at, id.
use switch_manager.Base.{
  ◌≡◌, refl, Bool, true, false, ◌&&◌, ◌||◌, List, [], ◌∷◌, Option, none, some, ltb, ◌==◌,
  if◌then◌else◌, arith,
}
use switch_manager.Base.Text.{Text, text_eq, text_eq_iff, text_eq_refl}
use switch_manager.Task.{Persisted}

abbrev pub Table : Type 0
Table = List Persisted

unfoldable pub find : Text → Table → Option Persisted
find id [] = none
find id (r ∷ rest) = if text_eq r.task.id id then some r else find id rest

-- The row with the same ID gives way to the new one.
unfoldable pub replace : Persisted → Table → Table
replace p [] = []
replace p (r ∷ rest) = if text_eq r.task.id p.task.id then p ∷ rest else r ∷ replace p rest

unfoldable pub filter_rows : (Persisted → Bool) → Table → Table
filter_rows test [] = []
filter_rows test (r ∷ rest) =
    let others = filter_rows test rest in if test r then r ∷ others else others

-- The order of texts by their bytes.
unfoldable pub text_lt : Text → Text → Bool
text_lt [] [] = false
text_lt [] (y ∷ ys) = true
text_lt (x ∷ xs) [] = false
text_lt (x ∷ xs) (y ∷ ys) = ltb x y || x == y && text_lt xs ys

-- `created_at, id`.
unfoldable pub precedes : Persisted → Persisted → Bool
unfolding text_lt
precedes p r =
    ltb p.task.created_at r.task.created_at
    || p.task.created_at == r.task.created_at && text_lt p.task.id r.task.id

-- The first in that order.
abbrev pub earlier : Persisted → Option Persisted → Persisted
earlier p none = p
earlier p (some r) = if precedes r p then r else p

unfoldable pub oldest : Table → Option Persisted
unfolding precedes
oldest [] = none
oldest (r ∷ rest) = some (earlier r (oldest rest))

unfoldable pub insert_row : Persisted → Table → Table
unfolding precedes
insert_row p [] = p ∷ []
insert_row p (r ∷ rest) = if precedes p r then p ∷ r ∷ rest else r ∷ insert_row p rest

unfoldable pub sort_rows : Table → Table
unfolding insert_row
sort_rows [] = []
sort_rows (r ∷ rest) = insert_row r (sort_rows rest)

-- The row that is found has the ID, and a row that replaces another is found under its ID.
pub find-id : (id : Text) (s : Table) {r : Persisted} → find id s ≡ some r → r.task.id ≡ id
unfolding find
find-id id [] h = cc
find-id id (x ∷ s) {r} h = ground (arith, find-id id s {r = r}, text_eq_iff x.task.id id)

pub find-replace :
    (id : Text) (p : Persisted) (s : Table) {r : Persisted}
    → find p.task.id s ≡ some r
    → find id (replace p s) ≡ (if text_eq p.task.id id then some p else find id s)
unfolding find replace
find-replace id p [] h = cc
find-replace id p (x ∷ s) {r} h = ground (
  arith,
  find-replace id p s {r = r},
  text_eq_iff x.task.id p.task.id,
  text_eq_iff x.task.id id,
  text_eq_iff p.task.id id,
)

-- The primary key: no two rows have one ID.
unfoldable pub Unique : Table → Type 0
Unique [] = Unit
Unique (r ∷ rest) = (find r.task.id rest ≡ none) × Unique rest

-- With it, a row that a query picks is the one under its ID.
pub oldest-found :
    (test : Persisted → Bool) (s : Table) {c : Persisted}
    → Unique s
    → oldest (filter_rows test s) ≡ some c
    → (find c.task.id s ≡ some c) × (test c ≡ true)
unfolding Unique oldest filter_rows find
oldest-found test [] u h = absurd (cc)
oldest-found test (x ∷ s) {c} u h = ground (
  arith,
  oldest-found test s {c = c} u.1,
  text_eq_iff x.task.id c.task.id,
  text_eq_refl x.task.id,
  u.0,
)

find-replace-none :
    (id : Text) (p : Persisted) (s : Table) → find id s ≡ none → find id (replace p s) ≡ none
unfolding find replace
find-replace-none id p [] h = refl
find-replace-none id p (x ∷ s) h = ground (
  arith,
  find-replace-none id p s,
  text_eq_iff x.task.id p.task.id,
  text_eq_iff x.task.id id,
  text_eq_iff p.task.id id,
)

pub replace-Unique : (p : Persisted) (s : Table) → Unique s → Unique (replace p s)
unfolding Unique replace
replace-Unique p [] u = u
replace-Unique p (x ∷ s) u = by_id (text_eq x.task.id p.task.id) refl (replace-Unique p s u.1)
  where
    by_id :
        (b : Bool)
        → text_eq x.task.id p.task.id ≡ b
        → Unique (replace p s)
        → Unique (if b then p ∷ s else x ∷ replace p s)
    by_id true e v = (ground (arith, u.0, text_eq_iff x.task.id p.task.id), u.1)
    by_id false e v = (find-replace-none x.task.id p s u.0, v)
