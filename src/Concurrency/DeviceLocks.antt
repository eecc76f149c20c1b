-- ===== src/Concurrency/DeviceLocks.antt =====
-- internal/concurrency/device_locks.go. `entries` maps a canonical device ID to the address of its
-- entry, and `heap` holds the entries: `releaseReference` compares addresses. `next` is the address
-- of the next allocation. An address with no entry reads as an entry that nobody refers to.
pub mod Table
pub mod Protocol
pub mod Invariant
pub mod Exclusion
use switch_manager.Base.{
  ℕ, suc, ◌+◌, ◌-◌, ◌<◌, Bool, true, false, not, List, [], ◌∷◌, Option, none, some, ltb, ◌==◌,
  if◌then◌else◌, length, map, Result, ok, err,
}
use switch_manager.Base.Text.{Text, text_eq, trim_space, is_blank}
use switch_manager.Concurrency.Semaphore.{Semaphore, Error, invalid_device_id, with_capacity, stats}
use Table.{lookup, delete}

pub record DeviceEntry : Type 0 where
  pub semaphore : Semaphore
  pub references : ℕ

pub record DeviceLocks : Type 0 where
  pub entries : List (Text × ℕ)
  pub heap : ℕ → DeviceEntry
  pub next : ℕ

abbrev pub new_entry : DeviceEntry
new_entry = record { semaphore = with_capacity 1; references = 0 }

unfoldable pub new_device_locks : DeviceLocks
new_device_locks = record { entries = []; heap = λ _. new_entry; next = 0 }

abbrev pub update : (ℕ → DeviceEntry) → ℕ → DeviceEntry → ℕ → DeviceEntry
update heap a e = λ b. if b == a then e else heap b

-- `strings.TrimSpace(deviceID)`, refused when it is empty.
unfoldable pub canonical_id : Text → Result Error Text
canonical_id id = if is_blank id then err invalid_device_id else ok (trim_space id)

-- `entry.references++`.
add_reference : ℕ → DeviceLocks → DeviceLocks
add_reference a d =
    let e = d.heap a in
    record d { heap = update d.heap a (record e { references = suc e.references }) }

-- The critical section of `Acquire`: the entry of the key, made if there is none, with one more
-- reference.
unfoldable pub reference : Text → DeviceLocks → DeviceLocks × ℕ
unfolding add_reference
reference key d = elim (lookup key d.entries) [
  | none ↦ (
    add_reference d.next (record d {
      entries = (key, d.next) ∷ d.entries;
      heap = update d.heap d.next new_entry;
      next = suc d.next;
    }),
    d.next,
  )
  | some a ↦ (add_reference a d, a)
]

-- One reference less, and the key removed with the last one.
drop_reference : Text → ℕ → DeviceLocks → DeviceLocks
drop_reference key a d =
    let e = d.heap a in
    let n = e.references - 1 in
    let t = record d { heap = update d.heap a (record e { references = n }) } in
    if n == 0 then record t { entries = delete key d.entries } else t

pub release_reference : Text → ℕ → DeviceLocks → DeviceLocks
unfolding drop_reference
release_reference key a d = elim (lookup key d.entries) [
  | none ↦ d
  | some b ↦ if b == a then drop_reference key a d else d
]

-- A critical section of the entry's semaphore.
abbrev pub at_entry : ℕ → (Semaphore → Semaphore) → DeviceLocks → DeviceLocks
at_entry a f d =
    let e = d.heap a in record d { heap = update d.heap a (record e { semaphore = f e.semaphore }) }

pub record DeviceLockStats : Type 0 where
  pub entries : ℕ
  pub active : ℕ
  pub waiting : ℕ

sum_stats : (ℕ → DeviceEntry) → List (Text × ℕ) → DeviceLockStats
sum_stats heap [] = record { entries = 0; active = 0; waiting = 0 }
sum_stats heap ((k, a) ∷ rest) =
    let s = stats (heap a).semaphore in
    let t = sum_stats heap rest in
    record {
      entries = suc t.entries;
      active = s.active + t.active;
      waiting = s.waiting + t.waiting;
    }

pub device_lock_stats : DeviceLocks → DeviceLockStats
unfolding sum_stats
device_lock_stats d = sum_stats d.heap d.entries
