-- ===== src/Concurrency/DeviceLocks/Invariant/Semaphores.antt =====
-- The invariant, and the steps that work on an entry's semaphore.
use switch_manager.Base.{
  ℕ, ◌+◌, ◌≤◌, ◌<◌, ◌≡◌, ◌∙◌, ap, subst, Bool, List, ◌∷◌, ◌++◌, some, arith, count, All,
  if◌then◌else◌, length,
}
use switch_manager.Base.Text.{Text}
use switch_manager.Concurrency.Semaphore
use switch_manager.Concurrency.Semaphore.Invariant
use switch_manager.Concurrency.Semaphore.Occurrences
use switch_manager.Concurrency.Semaphore.Occurrences.{single}
use switch_manager.Concurrency.DeviceLocks.{DeviceLocks, new_entry, at_entry}
use switch_manager.Concurrency.DeviceLocks.Table.{lookup}
use switch_manager.Concurrency.DeviceLocks.Protocol.{Phase, User, State, entry_semaphore, moves}
use switch_manager.Concurrency.DeviceLocks.Invariant.Users.{
  is_waiting, is_holding, at, stands, stays, Linked, count-mid, All-mid, All-rest, All-put,
}

-- What the entries owe to the users, whatever the table says.
pub record Backed (d : DeviceLocks) (users : List User) : Type 0 where
  pub sound : (a : ℕ) → Invariant.Inv (entry_semaphore d a)
  pub exclusive : (a : ℕ) → (entry_semaphore d a).capacity ≡ 1
  pub counted : (a : ℕ) → (d.heap a).references ≡ count (at a) users
  pub fresh : (a : ℕ) → d.next ≤ a → d.heap a ≡ new_entry
  pub in_line :
      (a x : ℕ) → Occurrences.waiting x (entry_semaphore d a) ≡ count (stands is_waiting a x) users
  pub permitted :
      (a x : ℕ) → Occurrences.holding x (entry_semaphore d a) ≡ count (stands is_holding a x) users
  pub permits : (a : ℕ) → length (entry_semaphore d a).permits ≡ count (stays is_holding a) users

pub record Inv (s : State) : Type 0 where
  pub backed : Backed s.locks s.users
  pub open backed use *
  pub linked : All (Linked s.locks.entries) s.users
  pub live :
      (k : Text) (a : ℕ)
      → lookup k s.locks.entries ≡ some a
      → (a < s.locks.next) × (0 < (s.locks.heap a).references)
  pub distinct :
      (j k : Text) (a : ℕ)
      → lookup j s.locks.entries ≡ some a
      → lookup k s.locks.entries ≡ some a
      → j ≡ k

-- What one user's step on the semaphore has to do, for its next phase `q`.
pub record Fits (g : ℕ) (p q : Phase) (s t : Semaphore.Semaphore) : Type 0 where
  pub sound : Invariant.Inv t
  pub capacity : t.capacity ≡ s.capacity
  pub in_line :
      (x : ℕ)
      → Occurrences.waiting x t + (if is_waiting p then single x g else 0)
        ≡ Occurrences.waiting x s + (if is_waiting q then single x g else 0)
  pub permitted :
      (x : ℕ)
      → Occurrences.holding x t + (if is_holding p then single x g else 0)
        ≡ Occurrences.holding x s + (if is_holding q then single x g else 0)
  pub permits :
      length t.permits + (if is_holding p then 1 else 0)
      ≡ length s.permits + (if is_holding q then 1 else 0)

-- Such a step keeps the invariant.
pub moves-Inv :
    (s : State) (before after : List User) (u : User) (q : Phase)
    (f : Semaphore.Semaphore → Semaphore.Semaphore)
    → Inv s
    → s.users ≡ before ++ u ∷ after
    → Fits u.who u.phase q (entry_semaphore s.locks u.entry) (f (entry_semaphore s.locks u.entry))
    → Inv (moves (at_entry u.entry f s.locks) before u q after)
moves-Inv s before after u q f v e w = record {
  backed = record {
    sound = λ a. ground (arith, v.sound a, w.sound);
    exclusive = λ a. ground (arith, v.exclusive a, v.exclusive u.entry, w.capacity);
    counted = λ a. ground (arith, v.counted a, old (at a), new (at a), v.counted u.entry);
    fresh = λ a h. ground (arith, v.fresh a h, v.live u.key u.entry mine);
    in_line = λ a x. ground (
      arith,
      v.in_line a x,
      old (stands is_waiting a x),
      new (stands is_waiting a x),
      w.in_line x,
      v.in_line u.entry x,
    );
    permitted = λ a x. ground (
      arith,
      v.permitted a x,
      old (stands is_holding a x),
      new (stands is_holding a x),
      w.permitted x,
      v.permitted u.entry x,
    );
    permits = λ a. ground (
      arith,
      v.permits a,
      old (stays is_holding a),
      new (stays is_holding a),
      w.permits,
      v.permits u.entry,
    );
  };
  linked =
      All-put L before (record u { phase = q }) after mine
        (All-rest L before u after (subst (All L) e v.linked));
  live = λ k a h. ground (arith, v.live k a h);
  distinct = v.distinct;
}
  where
    L : User → Type 0
    L = Linked s.locks.entries

    mine : L u
    mine = All-mid L before u after (subst (All L) e v.linked)

    old : (p : User → Bool) → count p s.users ≡ count p (before ++ after) + (if p u then 1 else 0)
    old p = ap (count p) e ∙ count-mid p before u after

    new :
        (p : User → Bool)
        → count p (before ++ record u { phase = q } ∷ after)
          ≡ count p (before ++ after) + (if p (record u { phase = q }) then 1 else 0)
    new p = count-mid p before (record u { phase = q }) after
