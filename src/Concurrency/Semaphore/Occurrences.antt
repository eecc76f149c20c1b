-- ===== src/Concurrency/Semaphore/Occurrences.antt =====
-- Where each goroutine stands: how often it is waiting (in line, or granted and not yet awake) and
-- how often it holds a permit, after each critical section.
use switch_manager.Base.{
  ℕ, zero, suc, ◌+◌, ◌-◌, ◌≤◌, ◌<◌, ◌≡◌, refl, Bool, true, false, List, [], ◌∷◌, ◌++◌, arith,
  length, take, drop, contains, erase, length-erase, if◌then◌else◌, ◌==◌, Bool-cases, inl, inr,
}
use switch_manager.Concurrency.Semaphore.{
  Semaphore, admits, grant_locked, release_one, enter, wake, abandon, release,
}
use switch_manager.Concurrency.Semaphore.Grant.{grant_locked-closed}
use switch_manager.Concurrency.Semaphore.Invariant.{Inv}

-- 1 at `g`, 0 elsewhere.
abbrev pub single : ℕ → ℕ → ℕ
single x g = if g == x then 1 else 0

abbrev pub occ : ℕ → List ℕ → ℕ
occ x [] = 0
occ x (y ∷ ys) = single x y + occ x ys

abbrev pub waiting : ℕ → Semaphore → ℕ
waiting x s = occ x s.queue + occ x s.granted

abbrev pub holding : ℕ → Semaphore → ℕ
holding x s = occ x s.permits

pub occ-append : (x : ℕ) (xs ys : List ℕ) → occ x (xs ++ ys) ≡ occ x xs + occ x ys
occ-append x [] ys = omega arith
occ-append x (y ∷ xs) ys = omega (arith, occ-append x xs ys)

pub occ-take-drop : (x k : ℕ) (xs : List ℕ) → occ x (take k xs) + occ x (drop k xs) ≡ occ x xs
occ-take-drop x zero xs = omega arith
occ-take-drop x (suc k) [] = omega arith
occ-take-drop x (suc k) (y ∷ xs) = omega (arith, occ-take-drop x k xs)

pub occ-erase :
    (x g : ℕ) (xs : List ℕ) → contains g xs ≡ true → occ x (erase g xs) + single x g ≡ occ x xs
occ-erase x g [] h = ground arith
occ-erase x g (y ∷ xs) h = ground (arith, occ-erase x g xs)

pub contains_of_occ : (g : ℕ) (xs : List ℕ) → 0 < occ g xs → contains g xs ≡ true
contains_of_occ g [] h = absurd (omega arith)
contains_of_occ g (y ∷ xs) h = ground (arith, contains_of_occ g xs)

grant_locked-occ :
    (x : ℕ) (s : Semaphore)
    → s.active ≤ s.capacity
    → (waiting x (grant_locked s) ≡ waiting x s) × ((grant_locked s).permits ≡ s.permits)
grant_locked-occ x s h =
    let k = s.capacity - s.active in
    rw (grant_locked-closed s h)
      (omega (arith, occ-append x s.granted (take k s.queue), occ-take-drop x k s.queue), refl)

release_one-occ :
    (x : ℕ) (s : Semaphore)
    → s.active ≤ s.capacity
    → (waiting x (release_one s) ≡ waiting x s) × ((release_one s).permits ≡ s.permits)
unfolding release_one
release_one-occ x s h =
    ground (arith, grant_locked-occ x (record s { active = s.active - 1 }) (omega arith))

pub enter-occ :
    (x g : ℕ) (s : Semaphore)
    → (waiting x (enter g s) ≡ waiting x s + (if admits s then 0 else single x g))
      × (holding x (enter g s) ≡ holding x s + (if admits s then single x g else 0))
      × (length (enter g s).permits ≡ length s.permits + (if admits s then 1 else 0))
unfolding enter
enter-occ x g s = ground (arith, occ-append x s.queue (g ∷ []))

pub wake-occ :
    (c : Bool) (x g : ℕ) (s : Semaphore)
    → Inv s
    → contains g s.granted ≡ true
    → (waiting x (wake c g s) + single x g ≡ waiting x s)
      × (holding x (wake c g s) ≡ holding x s + (if c then 0 else single x g))
      × (length (wake c g s).permits ≡ length s.permits + (if c then 0 else 1))
unfolding wake
wake-occ true x g s v h = ground (
  arith,
  release_one-occ x (record s { granted = erase g s.granted }) v.bounded,
  occ-erase x g s.granted h,
)
wake-occ false x g s v h = ground (arith, occ-erase x g s.granted h)

pub abandon-occ :
    (x g : ℕ) (s : Semaphore)
    → Inv s
    → 0 < waiting g s
    → (waiting x (abandon g s) + single x g ≡ waiting x s) × ((abandon g s).permits ≡ s.permits)
unfolding abandon
abandon-occ x g s v h = elim (Bool-cases (contains g s.granted)) [
  | inl e ↦ rw e (
      ground (
        arith,
        grant_locked-occ x (record s { active = s.active - 1; granted = erase g s.granted })
            (omega (arith, v.bounded)),
        occ-erase x g s.granted e,
      ))
  | inr e ↦
      let q : contains g s.queue ≡ true =
        contains_of_occ g s.queue (ground (arith, contains_of_occ g s.granted)) in
      rw e (ground (arith, occ-erase x g s.queue q))
]

pub release-occ :
    (x g : ℕ) (s : Semaphore)
    → Inv s
    → contains g s.permits ≡ true
    → (waiting x (release g s) ≡ waiting x s)
      × (holding x (release g s) + single x g ≡ holding x s)
      × (suc (length (release g s).permits) ≡ length s.permits)
unfolding release
release-occ x g s v h = rw h (
    ground (
      arith,
      release_one-occ x (record s { permits = erase g s.permits }) v.bounded,
      occ-erase x g s.permits h,
      length-erase g s.permits h,
    ))
