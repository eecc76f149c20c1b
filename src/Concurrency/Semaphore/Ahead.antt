-- ===== src/Concurrency/Semaphore/Ahead.antt =====
-- Who stands ahead of a waiter, after each critical section.
use mathlib.Core.List.{append_assoc}
use switch_manager.Base.{
  ℕ, zero, suc, ◌+◌, ◌-◌, ◌≤◌, ◌<◌, ◌≡◌, refl, Bool, true, false, List, [], ◌∷◌, ◌++◌, arith, take,
  drop, contains, erase, inl, inr, Bool-cases, ◌⊎◌, ◌==◌, is_empty,
}
use switch_manager.Concurrency.Semaphore.{
  Semaphore, Step, enters, wakes, abandons, releases, grant_locked, release_one, enter, wake,
  abandon, release,
}
use switch_manager.Concurrency.Semaphore.Grant.{grant_locked-closed}
use switch_manager.Concurrency.Semaphore.Occurrences.{
  occ, single, occ-append, occ-take-drop, occ-erase,
}

pub occ-cons : (x : ℕ) (xs : List ℕ) → occ x (x ∷ xs) ≡ suc (occ x xs)
occ-cons x xs = ground arith

is_empty-append : (a : List ℕ) (x : ℕ) (b : List ℕ) → is_empty (a ++ x ∷ b) ≡ false
is_empty-append [] x b = refl
is_empty-append (z ∷ a) x b = refl

occ-erase-le : (x g : ℕ) (xs : List ℕ) → occ x (erase g xs) ≤ occ x xs
occ-erase-le x g [] = omega arith
occ-erase-le x g (y ∷ xs) = ground (arith, occ-erase-le x g xs)

-- The part of a line that is served leaves `x` in it, so it is a part of those ahead of `x`.
drop-ahead :
    (x k : ℕ) (a b : List ℕ)
    → occ x b ≡ 0
    → 0 < occ x (drop k (a ++ x ∷ b))
    → (drop k (a ++ x ∷ b) ≡ drop k a ++ x ∷ b)
      × ((y : ℕ) → occ y (take k (a ++ x ∷ b)) + occ y (drop k a) ≡ occ y a)
drop-ahead x zero a b last here = (refl, λ y. omega arith)
drop-ahead x (suc k) [] b last here = absurd (omega (arith, occ-take-drop x k b))
drop-ahead x (suc k) (z ∷ a) b last here =
    let (line, served) = drop-ahead x k a b last here in (line, λ y. omega (arith, served y))

-- What `t` has of a line in which `a` stood ahead of `x` in `s`: `x` is still there, and who has a
-- slot now had one, or has left the part of the line that is ahead of `x`.
abbrev pub Ahead : ℕ → List ℕ → Semaphore → Semaphore → Type 0
Ahead x a s t =
    (a' : List ℕ) × (b' : List ℕ) × (t.queue ≡ a' ++ x ∷ b')
    × (occ x b' ≡ 0)
    × ((y : ℕ)
        → occ y t.granted + occ y t.permits + occ y a'
          ≤ occ y s.granted + occ y s.permits + occ y a)

-- The line without `g`: `x` is still there, and nobody new is ahead of it.
abbrev Left : ℕ → ℕ → List ℕ → List ℕ → Type 0
Left x g a b =
    (a' : List ℕ) × (b' : List ℕ) × (erase g (a ++ x ∷ b) ≡ a' ++ x ∷ b')
    × (occ x b' ≡ 0)
    × ((y : ℕ) → occ y a' ≤ occ y a)

erase-ahead :
    (x g : ℕ) (a b : List ℕ)
    → occ x a ≡ 0
    → occ x b ≡ 0
    → 0 < occ x (erase g (a ++ x ∷ b))
    → Left x g a b
erase-ahead x g [] b one last here = by_head (Bool-cases (x == g))
  where
    by_head : (x == g ≡ true) ⊎ (x == g ≡ false) → Left x g [] b
    by_head (inl e) = absurd (ground (arith, here, e, last))
    by_head (inr e) = (
      [],
      erase g b,
      ground (arith, e),
      omega (arith, occ-erase-le x g b, last),
      λ y. omega arith,
    )
erase-ahead x g (z ∷ a) b one last here =
    by_head (Bool-cases (z == g)) (erase-ahead x g a b (omega (arith, one)) last)
  where
    by_head :
        (z == g ≡ true) ⊎ (z == g ≡ false)
        → (0 < occ x (erase g (a ++ x ∷ b)) → Left x g a b)
        → Left x g (z ∷ a) b
    by_head (inl e) rest = (a, b, ground (arith, e), last, λ y. omega arith)
    by_head (inr e) rest =
        let (a', b', line, one', less) = rest (ground (arith, here, e, one)) in
        (z ∷ a', b', ground (arith, e, line), one', λ y. omega (arith, less y))

module _ (x : ℕ) (a b : List ℕ) where
  stays : (s : Semaphore) → s.queue ≡ a ++ x ∷ b → occ x b ≡ 0 → Ahead x a s s
  stays s line last = (a, b, line, last, λ y. omega arith)

  -- Fewer slots to begin with.
  fewer :
      (s r t : Semaphore)
      → ((y : ℕ) → occ y r.granted + occ y r.permits ≤ occ y s.granted + occ y s.permits)
      → Ahead x a r t
      → Ahead x a s t
  fewer s r t less (a', b', line, last, sum) =
      (a', b', line, last, λ y. omega (arith, less y, sum y))

  grant_locked-Ahead :
      (s : Semaphore)
      → s.active ≤ s.capacity
      → s.queue ≡ a ++ x ∷ b
      → occ x b ≡ 0
      → 0 < occ x (grant_locked s).queue
      → Ahead x a s (grant_locked s)
  grant_locked-Ahead s bounded line last here =
      let k = s.capacity - s.active in
      let closed = grant_locked-closed s bounded in
      let (rest, served) = drop-ahead x k a b last (ground (arith, here, closed, line)) in
      rw closed (
        drop k a,
        b,
        ground (arith, rest, line),
        last,
        λ y. rw line (omega (arith, occ-append y s.granted (take k (a ++ x ∷ b)), served y)),
      )

  release_one-Ahead :
      (s : Semaphore)
      → s.active ≤ s.capacity
      → s.queue ≡ a ++ x ∷ b
      → occ x b ≡ 0
      → 0 < occ x (release_one s).queue
      → Ahead x a s (release_one s)
  unfolding release_one
  release_one-Ahead s bounded line last here = elim (Bool-cases (s.active == 0)) [
    | inl e ↦ rw e (stays s line last)
    | inr e ↦ rw e (
        grant_locked-Ahead (record s { active = s.active - 1 }) (omega (arith, bounded)) line last
          (ground (arith, here, e)))
  ]

  enter-Ahead :
      (g : ℕ) (s : Semaphore)
      → s.queue ≡ a ++ x ∷ b
      → occ x b ≡ 0
      → occ x (enter g s).queue ≡ 1
      → Ahead x a s (enter g s)
  unfolding enter
  enter-Ahead g s line last once =
      let waits : is_empty s.queue ≡ false = rw line (is_empty-append a x b) in
      let new : single x g ≡ 0 =
        ground
          (arith, once, waits, line, occ-append x s.queue (g ∷ []), occ-append x a (x ∷ b), last) in
      rw waits (
        a,
        b ++ g ∷ [],
        ground (arith, line, append_assoc a (x ∷ b) (g ∷ [])),
        omega (arith, occ-append x b (g ∷ []), new, last),
        λ y. ground (arith, waits),
      )

  abandon-Ahead :
      (g : ℕ) (s : Semaphore)
      → s.active ≤ s.capacity
      → s.queue ≡ a ++ x ∷ b
      → occ x a ≡ 0
      → occ x b ≡ 0
      → 0 < occ x (abandon g s).queue
      → Ahead x a s (abandon g s)
  unfolding abandon
  abandon-Ahead g s bounded line none_ahead last here = elim (Bool-cases (contains g s.granted)) [
    | inl e ↦
        let r : Semaphore = record s { active = s.active - 1; granted = erase g s.granted } in
        rw e (
          fewer s r (grant_locked r) (λ y. omega (arith, occ-erase-le y g s.granted))
            (grant_locked-Ahead r (omega (arith, bounded)) line last (ground (arith, here, e))))
    | inr e ↦
        let (a', b', rest, one, less) =
          erase-ahead x g a b none_ahead last (ground (arith, here, e, line)) in
        rw e (a', b', ground (arith, rest, line), one, λ y. omega (arith, less y))
  ]

  release-Ahead :
      (g : ℕ) (s : Semaphore)
      → s.active ≤ s.capacity
      → s.queue ≡ a ++ x ∷ b
      → occ x b ≡ 0
      → 0 < occ x (release g s).queue
      → Ahead x a s (release g s)
  unfolding release
  release-Ahead g s bounded line last here = elim (Bool-cases (contains g s.permits)) [
    | inl e ↦
        let r : Semaphore = record s { permits = erase g s.permits } in
        rw e (
          fewer s r (release_one r) (λ y. omega (arith, occ-erase-le y g s.permits))
            (release_one-Ahead r bounded line last (ground (arith, here, e))))
    | inr e ↦ rw e (stays s line last)
  ]

  wake-Ahead :
      (c : Bool) (g : ℕ) (s : Semaphore)
      → contains g s.granted ≡ true
      → s.active ≤ s.capacity
      → s.queue ≡ a ++ x ∷ b
      → occ x b ≡ 0
      → 0 < occ x (wake c g s).queue
      → Ahead x a s (wake c g s)
  unfolding wake
  wake-Ahead true g s h bounded line last here =
      let r : Semaphore = record s { granted = erase g s.granted } in
      fewer s r (release_one r) (λ y. omega (arith, occ-erase-le y g s.granted))
        (release_one-Ahead r bounded line last here)
  wake-Ahead false g s h bounded line last here =
      (a, b, line, last, λ y. omega (arith, occ-erase y g s.granted h))

  pub Step-Ahead :
      {s t : Semaphore}
      → Step s t
      → s.active ≤ s.capacity
      → s.queue ≡ a ++ x ∷ b
      → occ x a ≡ 0
      → occ x b ≡ 0
      → occ x t.queue ≡ 1
      → Ahead x a s t
  Step-Ahead (enters g s) bounded line first last once = enter-Ahead g s line last once
  Step-Ahead (wakes c g s h) bounded line first last once =
      wake-Ahead c g s h bounded line last (omega (arith, once))
  Step-Ahead (abandons g s) bounded line first last once =
      abandon-Ahead g s bounded line first last (omega (arith, once))
  Step-Ahead (releases g s) bounded line first last once =
      release-Ahead g s bounded line last (omega (arith, once))
