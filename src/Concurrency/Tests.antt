-- ===== src/Concurrency/Tests.antt =====
-- The guards at concrete inputs.
use switch_manager.Base.{
  ℕ, ◌+◌, ◌≤◌, ◌<◌, ◌⊎◌, ◌≡◌, ◌↔◌, refl, [], ◌∷◌, none, arith, count, length, ok,
}
use switch_manager.Base.Text.{Text, codes, is_blank, trim_space}
use switch_manager.Concurrency.Semaphore.{
  Semaphore, new_semaphore, with_capacity, enter, release, release_one, grant_locked, grant_loop,
  Reach, start, onward, enters, releases,
}
use switch_manager.Concurrency.Semaphore.Invariant.{Inv, permits-le-capacity}
use switch_manager.Concurrency.Semaphore.Ahead.{Ahead}
use switch_manager.Concurrency.Semaphore.Overtaking
use switch_manager.Concurrency.Semaphore.Overtaking.{InLine, no_overtaking}
use switch_manager.Concurrency.DeviceLocks
use switch_manager.Concurrency.DeviceLocks.{canonical_id}
use switch_manager.Concurrency.DeviceLocks.Table.{lookup}
use switch_manager.Concurrency.DeviceLocks.Protocol
use switch_manager.Concurrency.DeviceLocks.Invariant.References.{initial}
use switch_manager.Concurrency.Controller
use switch_manager.Concurrency.Controller.{held_by}
use switch_manager.Concurrency.Controller.Guards.{has_lease, calls_on, in_global, leases-bounded}
use switch_manager.Concurrency.DeviceLocks.Exclusion.{
  holds, refers, mutual_exclusion, entries-match-users,
}

-- Two goroutines come to a semaphore of two slots.
abbrev pair : Semaphore
pair = with_capacity 2

pair_busy : Reach pair (enter 1 (enter 0 pair))
pair_busy = onward (onward start (enters 0 pair)) (enters 1 (enter 0 pair))

permits-le-capacity_example :
    Inv (enter 1 (enter 0 pair))
    × (length (enter 1 (enter 0 pair)).permits + length (enter 1 (enter 0 pair)).granted ≤ 2)
permits-le-capacity_example =
    permits-le-capacity 2 {s = pair} (unfold new_semaphore in refl) pair_busy

-- Both slots are taken and three goroutines wait.
abbrev crowded : Semaphore
crowded = record {
  capacity = 2;
  active = 2;
  queue = 3 ∷ 4 ∷ 5 ∷ [];
  granted = [];
  permits = 1 ∷ 2 ∷ [];
}

-- One more comes to wait, and a permit is released, while 4 stays in the line.
busier : InLine 4 crowded (release 1 (enter 6 crowded))
unfolding enter release release_one grant_locked grant_loop
busier =
    Overtaking.onward (Overtaking.onward (Overtaking.start refl) (enters 6 crowded) refl)
      (releases 1 (enter 6 crowded)) refl

no_overtaking_example : Ahead 4 (3 ∷ []) crowded (release 1 (enter 6 crowded))
no_overtaking_example = no_overtaking 4 (3 ∷ []) (5 ∷ []) (omega arith) (ground arith) refl busier

-- A goroutine asks for the device " sw1 ".
abbrev sw1 : Text
sw1 = codes "sw1"

trimmed : canonical_id (codes " sw1 ") ≡ ok sw1
unfolding canonical_id is_blank trim_space
trimmed = refl

abbrev asked : Protocol.State
asked = record {
  locks = (DeviceLocks.reference sw1 initial.locks).0;
  users =
      record {
        who = 7;
        key = sw1;
        entry = (DeviceLocks.reference sw1 initial.locks).1;
        phase = Protocol.arriving;
      }
      ∷ [];
}

asked_reached : Protocol.Reach initial asked
asked_reached = Protocol.onward Protocol.start (Protocol.arrives 7 (codes " sw1 ") sw1 trimmed)

mutual_exclusion_example : count (holds sw1) asked.users ≤ 1
mutual_exclusion_example = mutual_exclusion sw1 {s = asked} asked_reached

entries-match-users_example :
    (lookup sw1 asked.locks.entries ≡ none) ↔ (count (refers sw1) asked.users ≡ 0)
entries-match-users_example = entries-match-users sw1 {s = asked} asked_reached

-- With two slots: goroutine 7 takes the lock of sw1 and then a global slot.
abbrev idle : Controller.State
idle = record { devices = initial; global = pair; calls = [] }

abbrev locked : Protocol.State
locked =
    Protocol.moves (DeviceLocks.at_entry 0 (enter 7) asked.locks) []
      (record { who = 7; key = sw1; entry = 0; phase = Protocol.arriving }) Protocol.holding []

abbrev with_lease : Controller.State
with_lease = record {
  devices = locked;
  global = enter 7 pair;
  calls = record { who = 7; key = sw1; phase = Protocol.holding } ∷ [];
}

with_lease_reached : Controller.Reach idle with_lease
unfolding DeviceLocks.new_device_locks DeviceLocks.reference lookup enter
with_lease_reached =
    Controller.onward
      (Controller.onward
        (Controller.onward Controller.start
          (Controller.device (Protocol.arrives 7 (codes " sw1 ") sw1 trimmed) refl))
        (Controller.device (Protocol.enters [] [] _ refl refl) refl))
      (Controller.enters 7 sw1 (omega arith))

leases-bounded_example :
    (count has_lease with_lease.calls ≤ 2)
    × ((key : Text) → count (calls_on key) with_lease.calls ≤ 1)
    × ((x : ℕ)
        → (in_global x with_lease ≡ 0)
          ⊎ ((key : Text) × (0 < count (held_by x key) with_lease.devices.users)))
leases-bounded_example =
    leases-bounded 2 {s = idle} {t = with_lease}
      (unfold Controller.new_controller in
        unfold new_semaphore in unfold DeviceLocks.new_device_locks in refl)
      with_lease_reached
