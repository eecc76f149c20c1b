-- ===== src/Concurrency/DeviceLocks/Protocol.antt =====
-- What the goroutines do with the locks: `DeviceLocks.Acquire` and `DevicePermit.Release`, cut at
-- their critical sections. A call that has taken its reference is a `User`, in the phase that its
-- next step has; `refused` is the early return of `Semaphore.Acquire` when the context has ended.
use switch_manager.Base.{ℕ, ◌≡◌, Bool, List, ◌∷◌, ◌++◌, if◌then◌else◌, ok}
use switch_manager.Base.Text.{Text}
use switch_manager.Concurrency.Semaphore
use switch_manager.Concurrency.DeviceLocks.{
  DeviceLocks, canonical_id, reference, release_reference, at_entry,
}

pub data Phase : Type 0 where
  arriving waiting holding leaving : Phase

pub record User : Type 0 where
  pub who : ℕ
  pub key : Text
  pub entry : ℕ
  pub phase : Phase

pub record State : Type 0 where
  pub locks : DeviceLocks
  pub users : List User

abbrev pub entry_semaphore : DeviceLocks → ℕ → Semaphore.Semaphore
entry_semaphore d a = (d.heap a).semaphore

-- The user at the place between `before` and `after` does its next step, in the phase `p`.
abbrev pub moves : DeviceLocks → List User → User → Phase → List User → State
moves d before u p after = record { locks = d; users = before ++ record u { phase = p } ∷ after }

pub data Step (s : State) : State → Type 0 where
  arrives :
      (g : ℕ) (id key : Text)
      → canonical_id id ≡ ok key
      → Step s (record {
        locks = (reference key s.locks).0;
        users =
            record { who = g; key = key; entry = (reference key s.locks).1; phase = arriving }
            ∷ s.users;
      })
  refused :
      (before after : List User) (u : User)
      → s.users ≡ before ++ u ∷ after
      → u.phase ≡ arriving
      → Step s (moves s.locks before u leaving after)
  enters :
      (before after : List User) (u : User)
      → s.users ≡ before ++ u ∷ after
      → u.phase ≡ arriving
      → Step s (
          moves
            (at_entry u.entry (Semaphore.enter u.who) s.locks)
            before
            u
            (if Semaphore.admits (entry_semaphore s.locks u.entry) then holding else waiting)
            after)
  wakes :
      (c : Bool) (before after : List User) (u : User)
      → s.users ≡ before ++ u ∷ after
      → u.phase ≡ waiting
      → Semaphore.IsGranted u.who (entry_semaphore s.locks u.entry)
      → Step s (
          moves
            (at_entry u.entry (Semaphore.wake c u.who) s.locks)
            before
            u
            (if c then leaving else holding)
            after)
  abandons :
      (before after : List User) (u : User)
      → s.users ≡ before ++ u ∷ after
      → u.phase ≡ waiting
      → Step s (moves (at_entry u.entry (Semaphore.abandon u.who) s.locks) before u leaving after)
  releases :
      (before after : List User) (u : User)
      → s.users ≡ before ++ u ∷ after
      → u.phase ≡ holding
      → Step s (moves (at_entry u.entry (Semaphore.release u.who) s.locks) before u leaving after)
  leaves :
      (before after : List User) (u : User)
      → s.users ≡ before ++ u ∷ after
      → u.phase ≡ leaving
      → Step s (record { locks = release_reference u.key u.entry s.locks; users = before ++ after })

pub data Reach (s : State) : State → Type 0 where
  start : Reach s s
  onward : {t u : State} → Reach s t → Step t u → Reach s u
