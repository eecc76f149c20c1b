-- ===== src/Concurrency/DeviceLocks/Exclusion.antt =====
-- What the device locks promise to those who use them.
use switch_manager.Base.{
  ℕ, ◌≤◌, ◌≡◌, ◌↔◌, refl, Bool, ◌&&◌, List, [], ◌∷◌, none, some, arith, count, All, Option-cases,
  inl, inr,
}
use switch_manager.Base.Text.{Text, text_eq, text_eq_iff}
use switch_manager.Concurrency.DeviceLocks.Table.{lookup}
use switch_manager.Concurrency.DeviceLocks.Protocol.{User, State, Reach}
use switch_manager.Concurrency.DeviceLocks.Invariant.Users.{at, stays, is_holding, Linked}
use switch_manager.Concurrency.DeviceLocks.Invariant.References.{initial}
use switch_manager.Concurrency.DeviceLocks.Invariant.Steps.{Reach-Inv}

-- The users that hold the device `key`, and those that have a reference to it.
abbrev pub holds : Text → User → Bool
holds key u = text_eq u.key key && is_holding u.phase

abbrev pub refers : Text → User → Bool
refers key u = text_eq u.key key

module _ (key : Text) (m : List (Text × ℕ)) where
  holds-le-stays :
      (a : ℕ) (us : List User)
      → lookup key m ≡ some a
      → All (Linked m) us
      → count (holds key) us ≤ count (stays is_holding a) us
  holds-le-stays a [] h l = omega arith
  holds-le-stays a (u ∷ us) h l =
      ground (arith, holds-le-stays a us h l.1, text_eq_iff u.key key, l.0)

  refers-none :
      (us : List User) → lookup key m ≡ none → All (Linked m) us → count (refers key) us ≡ 0
  refers-none [] h l = refl
  refers-none (u ∷ us) h l = ground (arith, refers-none us h l.1, text_eq_iff u.key key, l.0)

  holds-le-refers : (us : List User) → count (holds key) us ≤ count (refers key) us
  holds-le-refers [] = omega arith
  holds-le-refers (u ∷ us) = ground (arith, holds-le-refers us)

  at-le-refers :
      (a : ℕ) (us : List User)
      → ((j : Text) → lookup j m ≡ some a → j ≡ key)
      → All (Linked m) us
      → count (at a) us ≤ count (refers key) us
  at-le-refers a [] d l = omega arith
  at-le-refers a (u ∷ us) d l =
      ground (arith, at-le-refers a us d l.1, text_eq_iff u.key key, l.0, d u.key)

-- Mutual exclusion: however the goroutines interleave, and however often entries are removed and
-- made again, at most one of them holds a device at a time.
pub mutual_exclusion : (key : Text) {s : State} → Reach initial s → count (holds key) s.users ≤ 1
mutual_exclusion key {s} r =
    let v = Reach-Inv r in
    elim (Option-cases (lookup key s.locks.entries)) [
      | inl h ↦ omega (
        arith,
        holds-le-refers key s.locks.entries s.users,
        refers-none key s.locks.entries s.users h v.linked,
      )
      | inr (a, h) ↦ omega (
        arith,
        holds-le-stays key s.locks.entries a s.users h v.linked,
        v.permits a,
        v.sound a,
        v.exclusive a,
      )
    ]

-- The table never holds an entry that nobody uses: a key is missing exactly when no goroutine has
-- a reference to it, so the map is empty again once all have left.
pub entries-match-users :
    (key : Text) {s : State}
    → Reach initial s
    → (lookup key s.locks.entries ≡ none) ↔ (count (refers key) s.users ≡ 0)
entries-match-users key {s} r = (
  λ h. refers-none key s.locks.entries s.users h (Reach-Inv r).linked,
  λ n. elim (Option-cases (lookup key s.locks.entries)) [
    | inl h ↦ h
    | inr (a, h) ↦ absurd (unused a h n)
  ],
)
  where
    unused : (a : ℕ) → lookup key s.locks.entries ≡ some a → count (refers key) s.users ≡ 0 → ⊥
    unused a h n =
        let v = Reach-Inv r in
        omega (
          arith,
          v.live key a h,
          v.counted a,
          at-le-refers key s.locks.entries a s.users (λ j e. v.distinct j key a e h) v.linked,
        )
