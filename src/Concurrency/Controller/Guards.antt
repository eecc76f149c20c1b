-- ===== src/Concurrency/Controller/Guards.antt =====
-- What the controller promises to those who hold its leases.
use switch_manager.Base.{
  ℕ, zero, suc, ◌+◌, ◌≤◌, ◌<◌, ◌≡◌, Bool, false, List, [], ◌∷◌, arith, count, ◌==◌, ok, inl, inr,
  Bool-cases, ◌⊎◌, refl,
}
use switch_manager.Base.Int.{pos}
use switch_manager.Base.Text.{Text, text_eq, text_eq_refl}
use switch_manager.Concurrency.Semaphore.Occurrences
use switch_manager.Concurrency.DeviceLocks.Protocol.{User}
use switch_manager.Concurrency.DeviceLocks.Invariant.Users.{is_waiting, is_holding}
use switch_manager.Concurrency.DeviceLocks.Exclusion.{holds, mutual_exclusion}
use switch_manager.Concurrency.Controller.{Call, State, new_controller, call_of, held_by, Reach}
use switch_manager.Concurrency.Controller.Shared.{stands, is_in}
use switch_manager.Concurrency.Controller.Invariant.{Backed, Reach-Inv}

-- The calls that are past the lock of the device `key`, and those that have a lease.
abbrev pub calls_on : Text → Call → Bool
calls_on key k = text_eq k.key key

abbrev pub has_lease : Call → Bool
has_lease = is_in is_holding

module _ (key : Text) where
  held-le-holds : (g : ℕ) (us : List User) → count (held_by g key) us ≤ count (holds key) us
  held-le-holds g [] = omega arith
  held-le-holds g (u ∷ us) = ground (arith, held-le-holds g us)

  -- Different goroutines hold apart.
  held-apart :
      (g h : ℕ) (us : List User)
      → (g == h) ≡ false
      → count (held_by g key) us + count (held_by h key) us ≤ count (holds key) us
  held-apart g h [] d = omega arith
  held-apart g h (u ∷ us) d = ground (arith, held-apart g h us d)

  -- Nobody calls, or someone does.
  someone :
      (ks : List Call) → (count (calls_on key) ks ≡ 0) ⊎ ((g : ℕ) × (0 < count (call_of g key) ks))
  someone [] = inl refl
  someone (k ∷ ks) = elim (Bool-cases (calls_on key k)) [
    | inl e ↦ inr (k.who, ground arith)
    | inr e ↦ elim (someone ks) [ inl n ↦ inl (ground arith) | inr (g, m) ↦ inr (g, ground arith) ]
  ]

  -- When `g` alone calls, all calls are those of `g`.
  calls-alone :
      (g : ℕ) (ks : List Call)
      → ((h : ℕ) → (g == h) ≡ false → count (call_of h key) ks ≡ 0)
      → count (calls_on key) ks ≤ count (call_of g key) ks
  calls-alone g [] a = omega arith
  calls-alone g (k ∷ ks) a =
      ground (arith, calls-alone g ks (λ h d. ground (arith, a h d)), a k.who)

  calls-le-one :
      (ks : List Call) (us : List User)
      → Backed ks us
      → count (holds key) us ≤ 1
      → count (calls_on key) ks ≤ 1
  calls-le-one ks us b m = elim (someone ks) [
    | inl n ↦ omega (arith, n)
    | inr (g, w) ↦ omega (
      arith,
      calls-alone g ks (λ h d. omega (arith, b g key, b h key, held-apart g h us d, m, w)),
      b g key,
      held-le-holds g us,
      m,
    )
  ]

-- The places of a goroutine in the global line, and its global slots.
abbrev pub in_global : ℕ → State → ℕ
in_global x s = Occurrences.waiting x s.global + Occurrences.holding x s.global

zero-or : (n : ℕ) → (n ≡ 0) ⊎ (0 < n)
zero-or zero = inl refl
zero-or (suc n) = inr (omega arith)

-- The device of a call in a phase of a kind.
standing :
    (x : ℕ) (ks : List Call)
    → 0 < count (stands is_waiting x) ks + count (stands is_holding x) ks
    → (key : Text) × (0 < count (call_of x key) ks)
standing x [] h = absurd (omega arith)
standing x (k ∷ ks) h = elim (Bool-cases (k.who == x)) [
  | inl e ↦ (k.key, ground (arith, text_eq_refl k.key))
  | inr e ↦ let (key, m) = standing x ks (ground arith) in (key, ground arith)
]

-- From a new controller of `n` slots, after any interleaving: at most `n` calls have a lease; at most
-- one call is past the lock of each device, with or without a lease, so the leases are for
-- different devices; and a goroutine has no place in the global line and no global slot, or
-- it holds a device, so that waiting for a device takes nothing from the others.
pub leases-bounded :
    (n : ℕ) {s t : State}
    → new_controller (pos n) ≡ ok s
    → Reach s t
    → (count has_lease t.calls ≤ n)
      × ((key : Text) → count (calls_on key) t.calls ≤ 1)
      × ((x : ℕ)
          → (in_global x t ≡ 0) ⊎ ((key : Text) × (0 < count (held_by x key) t.devices.users)))
leases-bounded n {s} {t} h r =
    let v = Reach-Inv n h r in
    (
      omega (
        arith, v.shared.permits, v.shared.capacity, v.shared.sound.accounted,
        v.shared.sound.bounded,
      ),
      λ key. calls-le-one key t.calls t.devices.users v.backed (mutual_exclusion key v.reached),
      λ x. elim (zero-or (in_global x t)) [
        | inl none_there ↦ inl none_there
        | inr w ↦
            let (key, m) =
              standing x t.calls (omega (arith, w, v.shared.in_line x, v.shared.permitted x)) in
            inr (key, omega (arith, m, v.backed x key))
      ],
    )
