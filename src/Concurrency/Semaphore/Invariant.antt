-- ===== src/Concurrency/Semaphore/Invariant.antt =====
-- What holds of a semaphore between two critical sections.
use switch_manager.Base.{
  ℕ, suc, ◌+◌, ◌-◌, ◌≤◌, ◌<◌, ◌≡◌, ◌∙◌, refl, inl, inr, Bool, true, false, List, [], ◌∷◌, ◌++◌,
  arith, length, take, contains, erase, length-append, length-take, length-drop, length-erase,
  Bool-cases, ok,
}
use switch_manager.Base.Int.{ℤ, pos, negsuc}
use switch_manager.Concurrency.Semaphore.{
  Semaphore, Step, Reach, start, onward, enters, wakes, abandons, releases, new_semaphore,
  grant_loop, grant_locked, release_one, enter, wake, abandon, release,
}
use switch_manager.Concurrency.Semaphore.Grant.{grant_locked-closed}

-- Every slot in use is held by a permit or on its way to a granted waiter.
abbrev pub Accounted : Semaphore → Type 0
Accounted s = (s.active ≡ length s.granted + length s.permits) × (s.active ≤ s.capacity)

pub record Inv (s : Semaphore) : Type 0 where
  pub usable : 0 < s.capacity
  pub accounted : s.active ≡ length s.granted + length s.permits
  pub bounded : s.active ≤ s.capacity
  pub busy : 0 < length s.queue → s.active ≡ s.capacity

-- A new semaphore has a usable capacity, and is idle.
pub new_semaphore-Inv : (n : ℤ) {s : Semaphore} → new_semaphore n ≡ ok s → Inv s
unfolding new_semaphore
new_semaphore-Inv (pos n) h = ground arith
new_semaphore-Inv (negsuc n) h = ground arith

-- `grantLocked` leaves no free slot beside a waiter.
pub grant_locked-Inv : (s : Semaphore) → 0 < s.capacity → Accounted s → Inv (grant_locked s)
grant_locked-Inv s u (a, b) =
    let k = s.capacity - s.active in
    rw (grant_locked-closed s b) (record {
      usable = u;
      accounted = omega (arith, length-append s.granted (take k s.queue), length-take k s.queue);
      bounded = omega arith;
      busy = λ h. omega (arith, length-drop k s.queue);
    })

pub release_one-Inv :
    (s : Semaphore)
    → 0 < s.capacity
    → s.active ≡ suc (length s.granted + length s.permits)
    → s.active ≤ s.capacity
    → Inv (release_one s)
unfolding release_one
release_one-Inv s u a b =
    ground
      (arith, grant_locked-Inv (record s { active = s.active - 1 }) u (omega arith, omega arith))

enter-Inv : (g : ℕ) (s : Semaphore) → Inv s → Inv (enter g s)
unfolding enter
enter-Inv g s v = ground (arith, length-append s.queue (g ∷ []))

wake-Inv :
    (c : Bool) (g : ℕ) (s : Semaphore) → contains g s.granted ≡ true → Inv s → Inv (wake c g s)
unfolding wake
wake-Inv true g s h v =
    release_one-Inv (record s { granted = erase g s.granted }) v.usable
      (omega (arith, length-erase g s.granted h, v.accounted)) v.bounded
wake-Inv false g s h v = ground (arith, length-erase g s.granted h)

length-erase-le : (g : ℕ) (xs : List ℕ) → length (erase g xs) ≤ length xs
length-erase-le g [] = omega arith
length-erase-le g (x ∷ xs) = ground (arith, length-erase-le g xs)

abandon-Inv : (g : ℕ) (s : Semaphore) → Inv s → Inv (abandon g s)
unfolding abandon
abandon-Inv g s v = elim (Bool-cases (contains g s.granted)) [
  | inl h ↦ rw h (
      grant_locked-Inv (record s { active = s.active - 1; granted = erase g s.granted }) v.usable
        (
          omega (arith, length-erase g s.granted h, v.accounted, v.bounded),
          omega (arith, v.bounded),
        ))
  | inr h ↦ rw h (ground (arith, length-erase-le g s.queue))
]

pub release-Inv : (g : ℕ) (s : Semaphore) → Inv s → Inv (release g s)
unfolding release
release-Inv g s v = elim (Bool-cases (contains g s.permits)) [
  | inl h ↦ rw h (
      release_one-Inv (record s { permits = erase g s.permits }) v.usable
        (omega (arith, length-erase g s.permits h, v.accounted)) v.bounded)
  | inr h ↦ rw h v
]

-- Every critical section of every goroutine keeps the invariant: the slots in use are those of the
-- permits and of the granted waiters, they never exceed the capacity, and nobody waits while a slot
-- is free.
pub Step-Inv : {s t : Semaphore} → Step s t → Inv s → Inv t
Step-Inv (enters g s) v = enter-Inv g s v
Step-Inv (wakes c g s h) v = wake-Inv c g s h v
Step-Inv (abandons g s) v = abandon-Inv g s v
Step-Inv (releases g s) v = release-Inv g s v

Reach-Inv : {s t : Semaphore} → Reach s t → Inv s → Inv t
Reach-Inv start v = v
Reach-Inv (onward r st) v = Step-Inv st (Reach-Inv r v)

grant_loop-capacity : (c a : ℕ) (q g p : List ℕ) → (grant_loop c a q g p).capacity ≡ c
unfolding grant_loop
grant_loop-capacity c a [] g p = refl
grant_loop-capacity c a (x ∷ q) g p =
    ground (arith, grant_loop-capacity c (suc a) q (g ++ x ∷ []) p)

release_one-capacity : (s : Semaphore) → (release_one s).capacity ≡ s.capacity
unfolding release_one grant_locked
release_one-capacity s =
    ground (arith, grant_loop-capacity s.capacity (s.active - 1) s.queue s.granted s.permits)

abandon-capacity : (g : ℕ) (s : Semaphore) → (abandon g s).capacity ≡ s.capacity
unfolding abandon grant_locked
abandon-capacity g s =
    ground
      (arith, grant_loop-capacity s.capacity (s.active - 1) s.queue (erase g s.granted) s.permits)

release-capacity : (g : ℕ) (s : Semaphore) → (release g s).capacity ≡ s.capacity
unfolding release
release-capacity g s =
    ground (arith, release_one-capacity (record s { permits = erase g s.permits }))

pub Step-capacity : {s t : Semaphore} → Step s t → t.capacity ≡ s.capacity
unfolding enter wake
Step-capacity (enters g s) = ground arith
Step-capacity (wakes true g s h) = release_one-capacity (record s { granted = erase g s.granted })
Step-capacity (wakes false g s h) = refl
Step-capacity (abandons g s) = abandon-capacity g s
Step-capacity (releases g s) = release-capacity g s

Reach-capacity : {s t : Semaphore} → Reach s t → t.capacity ≡ s.capacity
Reach-capacity start = refl
Reach-capacity (onward r st) = Step-capacity st ∙ Reach-capacity r

-- Whatever the goroutines do with a new semaphore of `n` slots, and in whatever order they do it,
-- the invariant holds and no more than `n` permits are out or on their way to a granted waiter.
pub permits-le-capacity :
    (n : ℕ) {s t : Semaphore}
    → new_semaphore (pos n) ≡ ok s
    → Reach s t
    → Inv t × (length t.permits + length t.granted ≤ n)
unfolding new_semaphore
permits-le-capacity n {s} {t} h r =
    let v = Reach-Inv r (new_semaphore-Inv (pos n) h) in
    let c : t.capacity ≡ s.capacity = Reach-capacity r in
    let e : s.capacity ≡ n = ground arith in (v, omega (arith, v.accounted, v.bounded, c, e))
