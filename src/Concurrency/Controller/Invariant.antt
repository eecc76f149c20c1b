-- ===== src/Concurrency/Controller/Invariant.antt =====
-- What every step of the controller keeps.
use switch_manager.Base.{
  ℕ, ◌≤◌, ◌<◌, ◌≡◌, ◌∙◌, ap, Bool, true, false, List, [], ◌∷◌, ◌++◌, arith, count, if◌then◌else◌,
  ok, inl, inr, Bool-cases, >>=-eq-ok, subst, ok_injective,
}
use switch_manager.Base.Int.{pos}
use switch_manager.Base.Text.{Text, text_eq, text_eq_iff}
use switch_manager.Concurrency.Semaphore.{Semaphore, new_semaphore, admits}
use switch_manager.Concurrency.Semaphore.Invariant.{new_semaphore-Inv}
use switch_manager.Concurrency.Semaphore.Occurrences
use switch_manager.Concurrency.DeviceLocks.Protocol
use switch_manager.Concurrency.DeviceLocks.Protocol.{Phase, waiting, holding, leaving, User}
use switch_manager.Concurrency.DeviceLocks.Invariant.Users.{is_waiting, is_holding, count-mid}
use switch_manager.Concurrency.DeviceLocks.Invariant.References.{initial}
use switch_manager.Concurrency.DeviceLocks.Invariant.Steps.{
  enter-Fits, wake-Fits, abandon-Fits, release-Fits,
}
use switch_manager.Concurrency.Controller.{
  Call, State, new_controller, call_of, held_by, is_release, Step, device, refused, enters, wakes,
  abandons, releases, returns, Reach, start, onward,
}
use switch_manager.Concurrency.Controller.Shared.{
  stands, Shared, begins-Shared, refused-Shared, passes-Shared, leaves-Shared,
}

-- Each call has a device permit of its own.
abbrev pub Backed : List Call → List User → Type 0
Backed calls users =
    (g : ℕ) (key : Text) → count (call_of g key) calls ≤ count (held_by g key) users

pub record Inv (n : ℕ) (s : State) : Type 0 where
  pub reached : Protocol.Reach initial s.devices
  pub shared : Shared n s.global s.calls
  pub backed : Backed s.calls s.devices.users

-- A call in a phase of a kind is counted there.
called_there :
    (p : Phase → Bool) (calls before after : List Call) (k : Call)
    → calls ≡ before ++ k ∷ after
    → p k.phase ≡ true
    → 0 < count (stands p k.who) calls
called_there p calls before after k e h =
    ground (arith, ap (count (stands p k.who)) e, count-mid (stands p k.who) before k after)

-- A call begins for a device permit that no call has yet.
begins-Backed :
    (x : ℕ) (own : Text) (p : Phase) (calls : List Call) (users : List User)
    → count (call_of x own) calls < count (held_by x own) users
    → Backed calls users
    → Backed (record { who = x; key = own; phase = p } ∷ calls) users
begins-Backed x own p calls users h v g key =
    let c : Call = record { who = x; key = own; phase = p } in
    elim (Bool-cases (call_of g key c)) [
      | inl e ↦
          let w : x ≡ g = ground arith in
          let j : own ≡ key = ground (arith, text_eq_iff own key) in
          rw e (
            omega (
              arith,
              h,
              ap (λ y. count (call_of y own) calls) w ∙ ap (λ y. count (call_of g y) calls) j,
              ap (λ y. count (held_by y own) users) w ∙ ap (λ y. count (held_by g y) users) j,
            ))
      | inr e ↦ rw e (v g key)
    ]

-- The phase of a call does not matter for whose it is.
passes-Backed :
    (before after : List Call) (k : Call) (q : Phase) (users : List User) {calls : List Call}
    → calls ≡ before ++ k ∷ after
    → Backed calls users
    → Backed (before ++ record k { phase = q } ∷ after) users
passes-Backed before after k q users e v g key = ground (
  arith,
  v g key,
  ap (count (call_of g key)) e,
  count-mid (call_of g key) before k after,
  count-mid (call_of g key) before (record k { phase = q }) after,
)

module _ (before after : List User) (u : User) (q : Phase) {users : List User} where
  -- A user that moves on without a release still holds what it held.
  moves-held :
      users ≡ before ++ u ∷ after
      → is_holding u.phase ≡ false
      → (g : ℕ) (key : Text)
      → count (held_by g key) users
        ≤ count (held_by g key) (before ++ record u { phase = q } ∷ after)
  moves-held e h g key = ground (
    arith,
    ap (count (held_by g key)) e,
    count-mid (held_by g key) before u after,
    count-mid (held_by g key) before (record u { phase = q }) after,
  )

-- Only a release takes a device from a user.
device-held :
    {s t : Protocol.State} (st : Protocol.Step s t)
    → is_release st ≡ false
    → (g : ℕ) (key : Text) → count (held_by g key) s.users ≤ count (held_by g key) t.users
device-held (Protocol.arrives x id j e) h g key = ground arith
device-held (Protocol.refused before after u e p) h g key =
    moves-held before after u _ e (ap is_holding p) g key
device-held (Protocol.enters before after u e p) h g key =
    moves-held before after u _ e (ap is_holding p) g key
device-held (Protocol.wakes c before after u e p w) h g key =
    moves-held before after u _ e (ap is_holding p) g key
device-held (Protocol.abandons before after u e p) h g key =
    moves-held before after u _ e (ap is_holding p) g key
device-held (Protocol.releases before after u e p) h g key = absurd (cc)
device-held (Protocol.leaves before after u e p) h g key =
    ground (arith, ap (count (held_by g key)) e, count-mid (held_by g key) before u after)

-- A call that returns its device permit takes one user out of the holders.
returns-Backed :
    (before after : List Call) (k : Call) (left right : List User) (u : User) {calls : List Call}
    {users : List User}
    → calls ≡ before ++ k ∷ after
    → users ≡ left ++ u ∷ right
    → u.who ≡ k.who
    → u.key ≡ k.key
    → u.phase ≡ holding
    → Backed calls users
    → Backed (before ++ after) (left ++ record u { phase = leaving } ∷ right)
returns-Backed before after k left right u e f w j p v g key = ground (
  arith,
  v g key,
  ap (count (call_of g key)) e,
  count-mid (call_of g key) before k after,
  ap (count (held_by g key)) f,
  count-mid (held_by g key) left u right,
  count-mid (held_by g key) left (record u { phase = leaving }) right,
  w,
  ap (λ x. text_eq x key) j,
  p,
)

module _ (n : ℕ) where
  pub Step-Inv : {s t : State} → Step s t → Inv n s → Inv n t
  Step-Inv {s} (device st q) v = record {
    reached = Protocol.onward v.reached st;
    shared = v.shared;
    backed = λ g key. omega (arith, v.backed g key, device-held st q g key);
  }
  Step-Inv {s} (refused g key h) v = record {
    reached = v.reached;
    shared = refused-Shared n s.global s.calls g key v.shared;
    backed = begins-Backed g key leaving s.calls s.devices.users h v.backed;
  }
  Step-Inv {s} (enters g key h) v = record {
    reached = v.reached;
    shared = begins-Shared n s.global s.calls _ _ v.shared (enter-Fits g s.global v.shared.sound);
    backed =
        begins-Backed g key (if admits s.global then holding else waiting) s.calls s.devices.users h
          v.backed;
  }
  Step-Inv {s} (wakes c before after k e h w) v = record {
    reached = v.reached;
    shared =
        passes-Shared n s.global s.calls before after k _ _ e v.shared
          (rw h (wake-Fits c k.who s.global v.shared.sound w));
    backed = passes-Backed before after k _ s.devices.users e v.backed;
  }
  Step-Inv {s} (abandons before after k e h) v = record {
    reached = v.reached;
    shared = passes-Shared n s.global s.calls before after k leaving _ e v.shared (
        rw h (
          abandon-Fits k.who s.global v.shared.sound (
            omega (
              arith,
              v.shared.in_line k.who,
              called_there is_waiting s.calls before after k e (ap is_waiting h),
            ))));
    backed = passes-Backed before after k leaving s.devices.users e v.backed;
  }
  Step-Inv {s} (releases before after k e h) v = record {
    reached = v.reached;
    shared = passes-Shared n s.global s.calls before after k leaving _ e v.shared (
        rw h (
          release-Fits k.who s.global v.shared.sound (
            Occurrences.contains_of_occ k.who _ (
              omega (
                arith,
                v.shared.permitted k.who,
                called_there is_holding s.calls before after k e (ap is_holding h),
              )))));
    backed = passes-Backed before after k leaving s.devices.users e v.backed;
  }
  Step-Inv {s} (returns before after k left right u e h f w j p) v = record {
    reached = Protocol.onward v.reached (Protocol.releases left right u f p);
    shared = leaves-Shared n s.global s.calls before after k e h v.shared;
    backed = returns-Backed before after k left right u e f w j p v.backed;
  }

  new_controller-Inv : {s : State} → new_controller (pos n) ≡ ok s → Inv n s
  unfolding new_controller new_semaphore
  new_controller-Inv {s} h =
      let (global, made, done) = >>=-eq-ok (new_semaphore (pos n)) _ h in
      subst (Inv n) (ok_injective done) (record {
        reached = Protocol.start;
        shared = idle global made;
        backed = λ g key. omega arith;
      })
    where
      idle : (global : Semaphore) → new_semaphore (pos n) ≡ ok global → Shared n global []
      idle global made = record {
        sound = new_semaphore-Inv (pos n) made;
        capacity = ground arith;
        in_line = λ x. ground arith;
        permitted = λ x. ground arith;
        permits = ground arith;
      }

  pub Reach-Inv : {s t : State} → new_controller (pos n) ≡ ok s → Reach s t → Inv n t
  Reach-Inv h start = new_controller-Inv h
  Reach-Inv h (onward r st) = Step-Inv st (Reach-Inv h r)
