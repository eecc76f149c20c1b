-- ===== src/Concurrency/Controller/Shared.antt =====
-- The global semaphore and the calls that use it.
use switch_manager.Base.{
  ℕ, ◌+◌, ◌≡◌, ◌∙◌, ap, Bool, ◌&&◌, List, ◌∷◌, ◌++◌, arith, count, if◌then◌else◌, ◌==◌, length,
}
use switch_manager.Base.Text.{Text}
use switch_manager.Concurrency.Semaphore
use switch_manager.Concurrency.Semaphore.{Semaphore, new_semaphore, admits}
use switch_manager.Concurrency.Semaphore.Invariant.{new_semaphore-Inv}
use switch_manager.Concurrency.Semaphore.Occurrences
use switch_manager.Concurrency.DeviceLocks.Protocol
use switch_manager.Concurrency.DeviceLocks.Protocol.{Phase, waiting, holding, leaving, User}
use switch_manager.Concurrency.DeviceLocks.Invariant.Users.{is_waiting, is_holding, count-mid}
use switch_manager.Concurrency.DeviceLocks.Invariant.Semaphores.{Fits}
use switch_manager.Concurrency.Controller.{Call}

-- The calls of `x` in a phase of the kind `p`.
abbrev pub stands : (Phase → Bool) → ℕ → Call → Bool
stands p x k = k.who == x && p k.phase

abbrev pub is_in : (Phase → Bool) → Call → Bool
is_in p k = p k.phase

-- What the global semaphore, whose capacity is `n`, owes to the calls.
pub record Shared (n : ℕ) (global : Semaphore) (calls : List Call) : Type 0 where
  pub sound : Semaphore.Invariant.Inv global
  pub capacity : global.capacity ≡ n
  pub in_line : (x : ℕ) → Occurrences.waiting x global ≡ count (stands is_waiting x) calls
  pub permitted : (x : ℕ) → Occurrences.holding x global ≡ count (stands is_holding x) calls
  pub permits : length global.permits ≡ count (is_in is_holding) calls

module _ (n : ℕ) (global : Semaphore) (calls : List Call) where
  -- A call that begins with a step of the global semaphore.
  pub begins-Shared :
      (k : Call) (t : Semaphore)
      → Shared n global calls
      → Fits k.who Protocol.arriving k.phase global t
      → Shared n t (k ∷ calls)
  begins-Shared k t v w = record {
    sound = w.sound;
    capacity = w.capacity ∙ v.capacity;
    in_line = λ x. ground (arith, v.in_line x, w.in_line x);
    permitted = λ x. ground (arith, v.permitted x, w.permitted x);
    permits = ground (arith, v.permits, w.permits);
  }

  -- A call that ends before it reaches the global semaphore.
  pub refused-Shared :
      (g : ℕ) (key : Text)
      → Shared n global calls
      → Shared n global (record { who = g; key = key; phase = leaving } ∷ calls)
  refused-Shared g key v = record {
    sound = v.sound;
    capacity = v.capacity;
    in_line = λ x. ground (arith, v.in_line x);
    permitted = λ x. ground (arith, v.permitted x);
    permits = ground (arith, v.permits);
  }

  -- A call that goes on with a step of the global semaphore.
  pub passes-Shared :
      (before after : List Call) (k : Call) (q : Phase) (t : Semaphore)
      → calls ≡ before ++ k ∷ after
      → Shared n global calls
      → Fits k.who k.phase q global t
      → Shared n t (before ++ record k { phase = q } ∷ after)
  passes-Shared before after k q t e v w = record {
    sound = w.sound;
    capacity = w.capacity ∙ v.capacity;
    in_line = λ x.
        ground
          (arith, v.in_line x, old (stands is_waiting x), new (stands is_waiting x), w.in_line x);
    permitted = λ x.
        ground (
          arith,
          v.permitted x,
          old (stands is_holding x),
          new (stands is_holding x),
          w.permitted x,
        );
    permits = ground (arith, v.permits, old (is_in is_holding), new (is_in is_holding), w.permits);
  }
    where
      old : (p : Call → Bool) → count p calls ≡ count p (before ++ after) + (if p k then 1 else 0)
      old p = ap (count p) e ∙ count-mid p before k after

      new :
          (p : Call → Bool)
          → count p (before ++ record k { phase = q } ∷ after)
            ≡ count p (before ++ after) + (if p (record k { phase = q }) then 1 else 0)
      new p = count-mid p before (record k { phase = q }) after

  -- A call that leaves has nothing of the global semaphore.
  pub leaves-Shared :
      (before after : List Call) (k : Call)
      → calls ≡ before ++ k ∷ after
      → k.phase ≡ leaving
      → Shared n global calls
      → Shared n global (before ++ after)
  leaves-Shared before after k e h v = record {
    sound = v.sound;
    capacity = v.capacity;
    in_line = λ x. ground (arith, v.in_line x, old (stands is_waiting x), h);
    permitted = λ x. ground (arith, v.permitted x, old (stands is_holding x), h);
    permits = ground (arith, v.permits, old (is_in is_holding), h);
  }
    where
      old : (p : Call → Bool) → count p calls ≡ count p (before ++ after) + (if p k then 1 else 0)
      old p = ap (count p) e ∙ count-mid p before k after
