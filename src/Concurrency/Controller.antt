-- ===== src/Concurrency/Controller.antt =====
-- internal/concurrency/controller.go: the device locks and the global semaphore together. A call of
-- `Acquire` is first a user of the device locks. A `Call` begins when that user holds its device: it
-- then goes for the global slot. `Lease.Release` returns the global slot first and the device
-- after it; a failed global `Acquire` returns the device only. `Do` is an `Acquire` whose lease is
-- released when the operation ends, in whatever way.
pub mod Shared
pub mod Invariant
pub mod Guards
use switch_manager.Base.{
  ℕ, ◌<◌, ◌≡◌, Bool, true, false, ◌&&◌, List, [], ◌∷◌, ◌++◌, if◌then◌else◌, ◌==◌, count, Result, ok,
  ◌>>=◌,
}
use switch_manager.Base.Int.{ℤ}
use switch_manager.Base.Text.{Text, text_eq}
use switch_manager.Concurrency.Semaphore
use switch_manager.Concurrency.DeviceLocks.{
  new_device_locks, at_entry, DeviceLockStats, device_lock_stats,
}
use switch_manager.Concurrency.DeviceLocks.Protocol
use switch_manager.Concurrency.DeviceLocks.Protocol.{Phase, waiting, holding, leaving, User, moves}
use switch_manager.Concurrency.DeviceLocks.Invariant.Users.{is_holding}

-- A call of `Acquire` that has its device: `waiting` in the global line, `holding` a lease, or
-- `leaving` without a global slot, on its way to `devicePermit.Release`.
pub record Call : Type 0 where
  pub who : ℕ
  pub key : Text
  pub phase : Phase

pub record State : Type 0 where
  pub devices : Protocol.State
  pub global : Semaphore.Semaphore
  pub calls : List Call

-- `NewController`.
unfoldable pub new_controller : ℤ → Result Semaphore.Error State
new_controller max_global = do
  global ← Semaphore.new_semaphore max_global
  ok (record {
    devices = record { locks = new_device_locks; users = [] };
    global = global;
    calls = [];
  })

pub record Snapshot : Type 0 where
  pub global : Semaphore.SemaphoreStats
  pub devices : DeviceLockStats

pub snapshot : State → Snapshot
snapshot s = record {
  global = Semaphore.stats s.global;
  devices = device_lock_stats s.devices.locks;
}

-- The calls of `g` for the device `key`, and the users of `g` that hold it.
abbrev pub call_of : ℕ → Text → Call → Bool
call_of g key c = c.who == g && text_eq c.key key

abbrev pub held_by : ℕ → Text → User → Bool
held_by g key u = u.who == g && text_eq u.key key && is_holding u.phase

-- A `devices.Acquire` of `g` for `key` has succeeded, and the call has not gone on yet.
abbrev pub HasDevice : ℕ → Text → State → Type 0
HasDevice g key s = count (call_of g key) s.calls < count (held_by g key) s.devices.users

-- Whether a step of the device locks is a `Release`, which only `returns` below may do.
abbrev pub is_release : {s t : Protocol.State} → Protocol.Step s t → Bool
is_release (Protocol.releases before after u e h) = true
is_release _ = false

-- The call at the place between `before` and `after` goes to the phase `p`.
abbrev pub passes : State → Semaphore.Semaphore → List Call → Call → Phase → List Call → State
passes s global before c p after = record s {
  global = global;
  calls = before ++ record c { phase = p } ∷ after;
}

pub data Step (s : State) : State → Type 0 where
  device :
      {d : Protocol.State} (st : Protocol.Step s.devices d)
      → is_release st ≡ false
      → Step s (record s { devices = d })
  refused :
      (g : ℕ) (key : Text)
      → HasDevice g key s
      → Step s (record s { calls = record { who = g; key = key; phase = leaving } ∷ s.calls })
  enters :
      (g : ℕ) (key : Text)
      → HasDevice g key s
      → Step s (record s {
        global = Semaphore.enter g s.global;
        calls =
            record {
              who = g;
              key = key;
              phase = if Semaphore.admits s.global then holding else waiting;
            }
            ∷ s.calls;
      })
  wakes :
      (c : Bool) (before after : List Call) (k : Call)
      → s.calls ≡ before ++ k ∷ after
      → k.phase ≡ waiting
      → Semaphore.IsGranted k.who s.global
      → Step s (
          passes s
            (Semaphore.wake c k.who s.global)
            before
            k
            (if c then leaving else holding)
            after)
  abandons :
      (before after : List Call) (k : Call)
      → s.calls ≡ before ++ k ∷ after
      → k.phase ≡ waiting
      → Step s (passes s (Semaphore.abandon k.who s.global) before k leaving after)
  releases :
      (before after : List Call) (k : Call)
      → s.calls ≡ before ++ k ∷ after
      → k.phase ≡ holding
      → Step s (passes s (Semaphore.release k.who s.global) before k leaving after)
  returns :
      (before after : List Call) (k : Call) (left right : List User) (u : User)
      → s.calls ≡ before ++ k ∷ after
      → k.phase ≡ leaving
      → s.devices.users ≡ left ++ u ∷ right
      → u.who ≡ k.who
      → u.key ≡ k.key
      → u.phase ≡ holding
      → Step s (record s {
        devices =
            moves (at_entry u.entry (Semaphore.release u.who) s.devices.locks) left u leaving right;
        calls = before ++ after;
      })

pub data Reach (s : State) : State → Type 0 where
  start : Reach s s
  onward : {t u : State} → Reach s t → Step t u → Reach s u
