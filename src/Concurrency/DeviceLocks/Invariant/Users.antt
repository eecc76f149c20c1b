-- ===== src/Concurrency/DeviceLocks/Invariant/Users.antt =====
-- Counting users: at an entry, and in a phase there.
use switch_manager.Base.{
  ℕ, ◌+◌, ◌≡◌, Bool, true, false, ◌&&◌, List, [], ◌∷◌, ◌++◌, some, none, arith, count, All, ◌==◌,
  if◌then◌else◌,
}
use switch_manager.Base.Text.{Text, text_eq_iff}
use switch_manager.Concurrency.DeviceLocks.Table.{lookup, delete, lookup-delete, lookup-add}
use switch_manager.Concurrency.DeviceLocks.Protocol.{Phase, waiting, holding, User}

abbrev pub is_waiting : Phase → Bool
is_waiting waiting = true
is_waiting _ = false

abbrev pub is_holding : Phase → Bool
is_holding holding = true
is_holding _ = false

abbrev pub at : ℕ → User → Bool
at a u = u.entry == a

-- The user is the goroutine `x`, at the entry `a`, in a phase of the kind `p`.
abbrev pub stands : (Phase → Bool) → ℕ → ℕ → User → Bool
stands p a x u = u.entry == a && u.who == x && p u.phase

-- The user is at the entry `a`, in a phase of the kind `p`.
abbrev pub stays : (Phase → Bool) → ℕ → User → Bool
stays p a u = u.entry == a && p u.phase

abbrev pub Linked : List (Text × ℕ) → User → Type 0
Linked m u = lookup u.key m ≡ some u.entry

pub count-mid {ℓ} :
    {A : Type ℓ} (p : A → Bool) (xs : List A) (u : A) (ys : List A)
    → count p (xs ++ u ∷ ys) ≡ count p (xs ++ ys) + (if p u then 1 else 0)
count-mid p [] u ys = ground arith
count-mid p (x ∷ xs) u ys = ground (arith, count-mid p xs u ys)

module _ {ℓ κ} {A : Type ℓ} (P : A → Type κ) where
  pub All-mid : (xs : List A) (u : A) (ys : List A) → All P (xs ++ u ∷ ys) → P u
  All-mid [] u ys h = h.0
  All-mid (x ∷ xs) u ys h = All-mid xs u ys h.1

  pub All-rest : (xs : List A) (u : A) (ys : List A) → All P (xs ++ u ∷ ys) → All P (xs ++ ys)
  All-rest [] u ys h = h.1
  All-rest (x ∷ xs) u ys h = (h.0, All-rest xs u ys h.1)

  pub All-put : (xs : List A) (u : A) (ys : List A) → P u → All P (xs ++ ys) → All P (xs ++ u ∷ ys)
  All-put [] u ys p h = (p, h)
  All-put (x ∷ xs) u ys p h = (h.0, All-put xs u ys p h.1)

-- A new key disturbs no user of another.
pub Linked-add :
    (k : Text) (a : ℕ) (m : List (Text × ℕ)) (us : List User)
    → lookup k m ≡ none
    → All (Linked m) us
    → All (Linked ((k, a) ∷ m)) us
Linked-add k a m [] h l = tt
Linked-add k a m (u ∷ us) h l =
    (ground (arith, lookup-add u.key k a m, text_eq_iff k u.key, l.0), Linked-add k a m us h l.1)

-- A key whose entry has no user can go.
pub Linked-delete :
    (k : Text) (a : ℕ) (m : List (Text × ℕ)) (us : List User)
    → lookup k m ≡ some a
    → count (at a) us ≡ 0
    → All (Linked m) us
    → All (Linked (delete k m)) us
Linked-delete k a m [] h n l = tt
Linked-delete k a m (u ∷ us) h n l = (
  ground (arith, lookup-delete u.key k m, text_eq_iff k u.key, l.0),
  Linked-delete k a m us h (ground arith) l.1,
)
