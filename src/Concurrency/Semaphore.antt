-- ===== src/Concurrency/Semaphore.antt =====
-- internal/concurrency/semaphore.go. `queue` holds the waiters in line by identity. The waiter and
-- permit objects live in the heap of the source: here `granted` lists the waiters whose flag is set
-- and whose `Acquire` has not looked yet, and `permits` the permits whose `once` has not fired. Each
-- function is what one goroutine does between `mu.Lock` and `mu.Unlock`. `active--` is reached only
-- at `active > 0` (Semaphore/Invariant), so the truncated `-` is exact.
pub mod Grant
pub mod Invariant
pub mod Fifo
pub mod Occurrences
pub mod Ahead
pub mod Overtaking
use switch_manager.Base.{
  ℕ, suc, ◌-◌, Bool, true, false, ◌&&◌, List, [], ◌∷◌, ◌++◌, ◌≡◌, ltb, ◌==◌, if◌then◌else◌,
  is_empty, length, contains, erase, Result, ok, err,
}
use switch_manager.Base.Int.{ℤ, pos, negsuc, le_int}

pub data Error : Type 0 where
  invalid_capacity nil_context canceled invalid_device_id : Error

pub record Semaphore : Type 0 where
  pub capacity : ℕ
  pub active : ℕ
  pub queue : List ℕ
  pub granted : List ℕ
  pub permits : List ℕ

-- The capacity of a new semaphore, from Go's `int`.
abbrev pub with_capacity : ℕ → Semaphore
with_capacity n = record { capacity = n; active = 0; queue = []; granted = []; permits = [] }

unfoldable pub new_semaphore : ℤ → Result Error Semaphore
new_semaphore (negsuc n) = err invalid_capacity
new_semaphore (pos n) = if n == 0 then err invalid_capacity else ok (with_capacity n)

-- The loop of `grantLocked`, over the fields that it changes.
unfoldable pub grant_loop : (capacity active : ℕ) (queue granted permits : List ℕ) → Semaphore
grant_loop capacity active [] granted permits = record {
  capacity = capacity;
  active = active;
  queue = [];
  granted = granted;
  permits = permits;
}
grant_loop capacity active (next ∷ queue) granted permits =
    let rest = grant_loop capacity (suc active) queue (granted ++ next ∷ []) permits in
    if ltb active capacity then rest else record {
      capacity = capacity;
      active = active;
      queue = next ∷ queue;
      granted = granted;
      permits = permits;
    }

unfoldable pub grant_locked : Semaphore → Semaphore
unfolding grant_loop
grant_locked s = grant_loop s.capacity s.active s.queue s.granted s.permits

unfoldable pub release_one : Semaphore → Semaphore
release_one s = if s.active == 0 then s else grant_locked (record s { active = s.active - 1 })

-- The first critical section of `Acquire`, for the waiter `g`: a permit at once, or a place in line.
abbrev pub admits : Semaphore → Bool
admits s = ltb s.active s.capacity && is_empty s.queue

unfoldable pub enter : ℕ → Semaphore → Semaphore
enter g s =
    if admits s
    then record s { active = suc s.active; permits = g ∷ s.permits }
    else record s { queue = s.queue ++ g ∷ [] }

-- `case <-queued.ready`, with what `ctx.Err()` says then.
pub wake : (canceled : Bool) → ℕ → Semaphore → Semaphore
wake true g s = release_one (record s { granted = erase g s.granted })
wake false g s = record s { granted = erase g s.granted; permits = g ∷ s.permits }

-- `case <-ctx.Done()`: a slot that was granted meanwhile goes to the next in line.
pub abandon : ℕ → Semaphore → Semaphore
abandon g s =
    if contains g s.granted
    then grant_locked (record s { active = s.active - 1; granted = erase g s.granted })
    else record s { queue = erase g s.queue }

-- `Permit.Release`: its `once` lets the first call through.
unfoldable pub release : ℕ → Semaphore → Semaphore
release g s =
    if contains g s.permits then release_one (record s { permits = erase g s.permits }) else s

pub record SemaphoreStats : Type 0 where
  pub capacity : ℕ
  pub active : ℕ
  pub waiting : ℕ

pub stats : Semaphore → SemaphoreStats
stats s = record { capacity = s.capacity; active = s.active; waiting = length s.queue }

-- What the goroutines that share a semaphore do, in any order that the source admits: only a waiter
-- whose `ready` is closed takes the first case of the select, and a waiter in line or just granted
-- may take the second.
-- The channel `ready` of a waiter is closed.
abbrev pub IsGranted : ℕ → Semaphore → Type 0
IsGranted g s = contains g s.granted ≡ true

pub data Step : Semaphore → Semaphore → Type 0 where
  enters : (g : ℕ) (s : Semaphore) → Step s (enter g s)
  wakes : (c : Bool) (g : ℕ) (s : Semaphore) → IsGranted g s → Step s (wake c g s)
  abandons : (g : ℕ) (s : Semaphore) → Step s (abandon g s)
  releases : (g : ℕ) (s : Semaphore) → Step s (release g s)

pub data Reach (s : Semaphore) : Semaphore → Type 0 where
  start : Reach s s
  onward : {t u : Semaphore} → Reach s t → Step t u → Reach s u
