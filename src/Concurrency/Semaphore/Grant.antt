-- ===== src/Concurrency/Semaphore/Grant.antt =====
-- The loop of `grantLocked` in closed form: it hands the free slots to the head of the line.
use mathlib.Core.List.{append-nil, append_assoc}
use switch_manager.Base.{
  ℕ, zero, suc, ◌+◌, ◌-◌, ◌≤◌, min, ◌≡◌, List, [], ◌∷◌, ◌++◌, arith, length, take, drop, lt→ltb,
  ◌∙◌,
}
use switch_manager.Concurrency.Semaphore.{Semaphore, grant_loop, grant_locked}

grant_loop-closed :
    (k c a : ℕ) (q g p : List ℕ)
    → c ≡ a + k
    → grant_loop c a q g p ≡ (record {
      capacity = c;
      active = a + min k (length q);
      queue = drop k q;
      granted = g ++ take k q;
      permits = p;
    })
unfolding grant_loop
grant_loop-closed zero c a [] g p h = ground (arith, append-nil g)
grant_loop-closed (suc k) c a [] g p h = ground (arith, append-nil g)
grant_loop-closed zero c a (x ∷ q) g p h = ground (arith, append-nil g)
grant_loop-closed (suc k) c a (x ∷ q) g p h = rw (lt→ltb a c (omega arith)) (
    grant_loop-closed k c (suc a) q (g ++ x ∷ []) p (omega arith)
    ∙ ground (arith, append_assoc g (x ∷ []) (take k q)))

-- `grantLocked` hands the free slots to the waiters at the head of the line, in their order.
pub grant_locked-closed :
    (s : Semaphore)
    → s.active ≤ s.capacity
    → let k = s.capacity - s.active in
      grant_locked s ≡ (record s {
        active = s.active + min k (length s.queue);
        queue = drop k s.queue;
        granted = s.granted ++ take k s.queue;
      })
unfolding grant_locked
grant_locked-closed s h =
    grant_loop-closed (s.capacity - s.active) s.capacity s.active s.queue s.granted s.permits
      (omega arith)
