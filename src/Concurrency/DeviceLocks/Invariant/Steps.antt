-- ===== src/Concurrency/DeviceLocks/Invariant/Steps.antt =====
-- Every step of every goroutine keeps the invariant.
use switch_manager.Base.{
  ℕ, ◌<◌, ◌≡◌, ap, Bool, true, List, ◌∷◌, ◌++◌, arith, count, if◌then◌else◌, contains,
}
use switch_manager.Concurrency.Semaphore
use switch_manager.Concurrency.Semaphore.{admits}
use switch_manager.Concurrency.Semaphore.Invariant
use switch_manager.Concurrency.Semaphore.Occurrences
use switch_manager.Concurrency.DeviceLocks.Protocol.{
  Phase, arriving, waiting, holding, leaving, User, State, entry_semaphore, Step, arrives, refused,
  enters, wakes, abandons, releases, leaves, Reach, start, onward,
}
use switch_manager.Concurrency.DeviceLocks.Invariant.Users.{
  is_waiting, is_holding, stands, count-mid,
}
use switch_manager.Concurrency.DeviceLocks.Invariant.Semaphores.{Inv, Fits, moves-Inv}
use switch_manager.Concurrency.DeviceLocks.Invariant.References.{
  initial, initial-Inv, arrives-Inv, refused-Inv, leaves-Inv,
}

pub enter-Fits :
    (g : ℕ) (s : Semaphore.Semaphore)
    → Invariant.Inv s
    → Fits g arriving (if admits s then holding else waiting) s (Semaphore.enter g s)
enter-Fits g s v = record {
  sound = Invariant.Step-Inv (Semaphore.enters g s) v;
  capacity = Invariant.Step-capacity (Semaphore.enters g s);
  in_line = λ x. ground (arith, Occurrences.enter-occ x g s);
  permitted = λ x. ground (arith, Occurrences.enter-occ x g s);
  permits = ground (arith, Occurrences.enter-occ g g s);
}

pub wake-Fits :
    (c : Bool) (g : ℕ) (s : Semaphore.Semaphore)
    → Invariant.Inv s
    → Semaphore.IsGranted g s
    → Fits g waiting (if c then leaving else holding) s (Semaphore.wake c g s)
wake-Fits c g s v h = record {
  sound = Invariant.Step-Inv (Semaphore.wakes c g s h) v;
  capacity = Invariant.Step-capacity (Semaphore.wakes c g s h);
  in_line = λ x. ground (arith, Occurrences.wake-occ c x g s v h);
  permitted = λ x. ground (arith, Occurrences.wake-occ c x g s v h);
  permits = ground (arith, Occurrences.wake-occ c g g s v h);
}

pub abandon-Fits :
    (g : ℕ) (s : Semaphore.Semaphore)
    → Invariant.Inv s
    → 0 < Occurrences.waiting g s
    → Fits g waiting leaving s (Semaphore.abandon g s)
abandon-Fits g s v h = record {
  sound = Invariant.Step-Inv (Semaphore.abandons g s) v;
  capacity = Invariant.Step-capacity (Semaphore.abandons g s);
  in_line = λ x. ground (arith, Occurrences.abandon-occ x g s v h);
  permitted = λ x. ground (arith, Occurrences.abandon-occ x g s v h);
  permits = ground (arith, Occurrences.abandon-occ g g s v h);
}

pub release-Fits :
    (g : ℕ) (s : Semaphore.Semaphore)
    → Invariant.Inv s
    → contains g s.permits ≡ true
    → Fits g holding leaving s (Semaphore.release g s)
release-Fits g s v h = record {
  sound = Invariant.Step-Inv (Semaphore.releases g s) v;
  capacity = Invariant.Step-capacity (Semaphore.releases g s);
  in_line = λ x. ground (arith, Occurrences.release-occ x g s v h);
  permitted = λ x. ground (arith, Occurrences.release-occ x g s v h);
  permits = ground (arith, Occurrences.release-occ g g s v h);
}

-- A user in a phase of a kind is counted there.
counted_there :
    (k : Phase → Bool) (s : State) (before after : List User) (u : User)
    → s.users ≡ before ++ u ∷ after
    → k u.phase ≡ true
    → 0 < count (stands k u.entry u.who) s.users
counted_there k s before after u e h = ground (
  arith,
  ap (count (stands k u.entry u.who)) e,
  count-mid (stands k u.entry u.who) before u after,
)

pub Step-Inv : {s t : State} → Step s t → Inv s → Inv t
Step-Inv {s} (arrives g id key h) v = arrives-Inv s g key v
Step-Inv {s} (refused before after u e h) v = refused-Inv s before after u v e h
Step-Inv {s} (enters before after u e h) v =
    moves-Inv s before after u _ (Semaphore.enter u.who) v e
      (rw h (enter-Fits u.who (entry_semaphore s.locks u.entry) (v.sound u.entry)))
Step-Inv {s} (wakes c before after u e h g) v =
    moves-Inv s before after u _ (Semaphore.wake c u.who) v e
      (rw h (wake-Fits c u.who (entry_semaphore s.locks u.entry) (v.sound u.entry) g))
Step-Inv {s} (abandons before after u e h) v =
    moves-Inv s before after u leaving (Semaphore.abandon u.who) v e (
      rw h (
        abandon-Fits u.who (entry_semaphore s.locks u.entry) (v.sound u.entry) (
          omega (
            arith,
            v.in_line u.entry u.who,
            counted_there is_waiting s before after u e (ap is_waiting h),
          ))))
Step-Inv {s} (releases before after u e h) v =
    moves-Inv s before after u leaving (Semaphore.release u.who) v e (
      rw h (
        release-Fits u.who (entry_semaphore s.locks u.entry) (v.sound u.entry) (
          Occurrences.contains_of_occ u.who _ (
            omega (
              arith,
              v.permitted u.entry u.who,
              counted_there is_holding s before after u e (ap is_holding h),
            )))))
Step-Inv {s} (leaves before after u e h) v = leaves-Inv s before after u v e h

pub Reach-Inv : {t : State} → Reach initial t → Inv t
Reach-Inv start = initial-Inv
Reach-Inv (onward r st) = Step-Inv st (Reach-Inv r)
