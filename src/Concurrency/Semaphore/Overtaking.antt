-- ===== src/Concurrency/Semaphore/Overtaking.antt =====
-- Nobody gets a slot before a waiter that stands further ahead in the line.
use switch_manager.Base.{
  ℕ, ◌-◌, ◌<◌, ◌≡◌, Bool, true, false, List, ◌∷◌, ◌++◌, arith, contains, erase, inl, inr,
  Bool-cases, length-erase,
}
use switch_manager.Concurrency.Semaphore.{
  Semaphore, Step, enters, wakes, abandons, releases, enter, wake, abandon, release,
}
use switch_manager.Concurrency.Semaphore.Invariant.{
  Accounted, Step-capacity, grant_locked-Inv, release_one-Inv,
}
use switch_manager.Concurrency.Semaphore.Occurrences.{occ, occ-append}
use switch_manager.Concurrency.Semaphore.Ahead.{Ahead, Step-Ahead, occ-cons}

wake-Accounted :
    (c : Bool) (g : ℕ) (s : Semaphore)
    → contains g s.granted ≡ true
    → 0 < s.capacity
    → Accounted s
    → Accounted (wake c g s)
unfolding wake
wake-Accounted true g s h u v =
    let i =
      release_one-Inv (record s { granted = erase g s.granted }) u
        (omega (arith, length-erase g s.granted h, v.0)) v.1 in
    (i.accounted, i.bounded)
wake-Accounted false g s h u v = (omega (arith, length-erase g s.granted h, v.0), v.1)

abandon-Accounted : (g : ℕ) (s : Semaphore) → 0 < s.capacity → Accounted s → Accounted (abandon g s)
unfolding abandon
abandon-Accounted g s u v = elim (Bool-cases (contains g s.granted)) [
  | inl h ↦
      let r : Semaphore = record s { active = s.active - 1; granted = erase g s.granted } in
      let i =
        grant_locked-Inv r u
          (omega (arith, length-erase g s.granted h, v.0, v.1), omega (arith, v.1)) in
      rw h (i.accounted, i.bounded)
  | inr h ↦ rw h v
]

release-Accounted : (g : ℕ) (s : Semaphore) → 0 < s.capacity → Accounted s → Accounted (release g s)
unfolding release
release-Accounted g s u v = elim (Bool-cases (contains g s.permits)) [
  | inl h ↦
      let i =
        release_one-Inv (record s { permits = erase g s.permits }) u
          (omega (arith, length-erase g s.permits h, v.0)) v.1 in
      rw h (i.accounted, i.bounded)
  | inr h ↦ rw h v
]

Step-Accounted : {s t : Semaphore} → Step s t → 0 < s.capacity → Accounted s → Accounted t
unfolding enter
Step-Accounted (enters g s) u v = ground (arith, v)
Step-Accounted (wakes c g s h) u v = wake-Accounted c g s h u v
Step-Accounted (abandons g s) u v = abandon-Accounted g s u v
Step-Accounted (releases g s) u v = release-Accounted g s u v

-- Steps of any goroutines in which `x` stays in the line, at one place.
pub data InLine (x : ℕ) (s : Semaphore) : Semaphore → Type 0 where
  start : occ x s.queue ≡ 1 → InLine x s s
  onward : {t u : Semaphore} → InLine x s t → Step t u → occ x u.queue ≡ 1 → InLine x s u

InLine-Accounted :
    {x : ℕ} {s t : Semaphore}
    → 0 < s.capacity
    → Accounted s
    → InLine x s t
    → (0 < t.capacity) × Accounted t
InLine-Accounted u v (start once) = (u, v)
InLine-Accounted u v (onward r st once) =
    let (u', v') = InLine-Accounted u v r in
    (omega (arith, Step-capacity st, u'), Step-Accounted st u' v')

InLine-once : {x : ℕ} {s t : Semaphore} → InLine x s t → occ x t.queue ≡ 1
InLine-once (start once) = once
InLine-once (onward r st once) = once

alone : (x : ℕ) (a b q : List ℕ) → q ≡ a ++ x ∷ b → occ x q ≡ 1 → (occ x a ≡ 0) × (occ x b ≡ 0)
alone x a b q line once =
    let sum : occ x (a ++ x ∷ b) ≡ 1 = ground (arith, line, once) in
    let parts = occ-append x a (x ∷ b) in
    let one = occ-cons x b in (omega (arith, sum, parts, one), omega (arith, sum, parts, one))

-- Nobody overtakes a waiter: from any state whose slots add up, also one with a free slot, whatever the
-- goroutines do and in whatever order, as long as `x` stays in the line, at one place: for every
-- `y`, the slots that it has, granted or as a permit, together with its places ahead of `x`, do not
-- become more. So nobody who did not stand ahead of `x` gets a slot or comes to stand ahead.
pub no_overtaking :
    (x : ℕ) (a b : List ℕ) {s t : Semaphore}
    → 0 < s.capacity
    → Accounted s
    → s.queue ≡ a ++ x ∷ b
    → InLine x s t
    → Ahead x a s t
no_overtaking x a b usable counted line (start once) =
    let (_, last) = alone x a b _ line once in (a, b, line, last, λ y. omega arith)
no_overtaking x a b usable counted line (onward r st once) =
    let (a', b', rest, last, sum) = no_overtaking x a b usable counted line r in
    let (first, _) = alone x a' b' _ rest (InLine-once r) in
    let (a'', b'', rest', last', sum') =
      Step-Ahead x a' b' st (InLine-Accounted usable counted r).1.1 rest first last once in
    (a'', b'', rest', last', λ y. omega (arith, sum y, sum' y))
