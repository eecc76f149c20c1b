-- ===== src/Concurrency/DeviceLocks/Invariant/References.antt =====
-- The steps that take and give back references, and all steps together.
use switch_manager.Base.{
  ℕ, ◌+◌, ◌-◌, ◌≡◌, ◌∙◌, refl, ap, subst, Bool, List, [], ◌∷◌, ◌++◌, some, none, arith, count, All,
  ◌==◌, if◌then◌else◌, Option-cases, inl, inr, Bool-cases, ==_refl,
}
use switch_manager.Base.Text.{Text, text_eq_iff}
use switch_manager.Concurrency.DeviceLocks.{new_device_locks, update, reference, release_reference}
use switch_manager.Concurrency.DeviceLocks.Table.{
  lookup, delete, lookup-add, lookup-delete, lookup-empty,
}
use switch_manager.Concurrency.DeviceLocks.Protocol.{arriving, leaving, User, State}
use switch_manager.Concurrency.DeviceLocks.Invariant.Users.{
  is_waiting, is_holding, at, stands, stays, Linked, Linked-add, Linked-delete, count-mid, All-mid,
  All-put, All-rest,
}
use switch_manager.Concurrency.DeviceLocks.Invariant.Semaphores.{Backed, Inv}

abbrev pub initial : State
initial = record { locks = new_device_locks; users = [] }

pub initial-Inv : Inv initial
unfolding new_device_locks
initial-Inv = record {
  backed = record {
    sound = λ a. ground arith;
    exclusive = λ a. refl;
    counted = λ a. refl;
    fresh = λ a h. refl;
    in_line = λ a x. omega arith;
    permitted = λ a x. refl;
    permits = λ a. refl;
  };
  linked = tt;
  live = λ k a h. ground (arith, lookup-empty k);
  distinct = λ j k a h i. ground (arith, lookup-empty j);
}

-- The state after the goroutine `g` has taken its reference for `key`.
abbrev pub arrived : State → ℕ → Text → State
arrived s g key = record {
  locks = (reference key s.locks).0;
  users =
      record { who = g; key = key; entry = (reference key s.locks).1; phase = arriving } ∷ s.users;
}

arrives-known :
    (s : State) (g : ℕ) (key : Text) (a : ℕ)
    → Inv s
    → lookup key s.locks.entries ≡ some a
    → Inv (arrived s g key)
unfolding reference
arrives-known s g key a v h =
    rw (h, reference)
      (record {
        backed = record {
          sound = λ b. ground (arith, v.sound b, v.sound a);
          exclusive = λ b. ground (arith, v.exclusive b, v.exclusive a);
          counted = λ b. ground (arith, v.counted b);
          fresh = λ b e. ground (arith, v.fresh b e, v.live key a h);
          in_line = λ b x. ground (arith, v.in_line b x, v.in_line a x);
          permitted = λ b x. ground (arith, v.permitted b x, v.permitted a x);
          permits = λ b. ground (arith, v.permits b, v.permits a);
        };
        linked = (h, v.linked);
        live = λ k b e. ground (arith, v.live k b e);
        distinct = v.distinct;
      })

arrives-new :
    (s : State) (g : ℕ) (key : Text)
    → Inv s
    → lookup key s.locks.entries ≡ none
    → Inv (arrived s g key)
unfolding reference
arrives-new s g key v h =
    let n = s.locks.next in
    let m = s.locks.entries in
    let f = v.fresh n (omega arith) in
    rw (h, reference)
      (record {
        backed = record {
          sound = λ b. ground (arith, v.sound b, v.sound n, f);
          exclusive = λ b. ground (arith, v.exclusive b);
          counted = λ b. ground (arith, v.counted b, f, v.counted n);
          fresh = λ b e. ground (arith, v.fresh b);
          in_line = λ b x. ground (arith, v.in_line b x, v.in_line n x, f);
          permitted = λ b x. ground (arith, v.permitted b x, v.permitted n x, f);
          permits = λ b. ground (arith, v.permits b, v.permits n, f);
        };
        linked = (
          ground (arith, lookup-add key key n m, text_eq_iff key key),
          Linked-add key n m s.users h v.linked,
        );
        live = λ k b e. ground (arith, v.live k b, lookup-add k key n m, text_eq_iff key k);
        distinct = λ j k b e i. ground (
          arith,
          v.distinct j k b,
          v.live j b,
          v.live k b,
          lookup-add k key n m,
          text_eq_iff key k,
          lookup-add j key n m,
          text_eq_iff key j,
        );
      })

pub arrives-Inv : (s : State) (g : ℕ) (key : Text) → Inv s → Inv (arrived s g key)
arrives-Inv s g key v = elim (Option-cases (lookup key s.locks.entries)) [
  | inl h ↦ arrives-new s g key v h
  | inr (a, h) ↦ arrives-known s g key a v h
]

-- A user whose context has ended before it joins the line goes to leave.
module _ (s : State) (before after : List User) (u : User) (v : Inv s)
    (e : s.users ≡ before ++ u ∷ after) (l : u.phase ≡ arriving) where
  abbrev gone : User
  gone = record u { phase = leaving }

  same : (p : User → Bool) → p u ≡ p gone → count p s.users ≡ count p (before ++ gone ∷ after)
  same p h =
      ap (count p) e ∙ ground (arith, count-mid p before u after, count-mid p before gone after, h)

  pub refused-Inv : Inv (record { locks = s.locks; users = before ++ gone ∷ after })
  refused-Inv =
      let linked = subst (All (Linked s.locks.entries)) e v.linked in
      record {
        backed = record {
          sound = v.backed.sound;
          exclusive = v.backed.exclusive;
          counted = λ a. v.backed.counted a ∙ same (at a) refl;
          fresh = v.backed.fresh;
          in_line = λ a x.
              ground
                (arith, v.backed.in_line a x, same (stands is_waiting a x) (ground (arith, l)));
          permitted = λ a x.
              ground
                (arith, v.backed.permitted a x, same (stands is_holding a x) (ground (arith, l)));
          permits = λ a.
              ground (arith, v.backed.permits a, same (stays is_holding a) (ground (arith, l)));
        };
        linked =
            All-put (Linked s.locks.entries) before gone after
              (All-mid (Linked s.locks.entries) before u after linked)
              (All-rest (Linked s.locks.entries) before u after linked);
        live = v.live;
        distinct = v.distinct;
      }

-- A user that leaves, and what its leaving does whether or not it was the last of its key.
module _ (s : State) (before after : List User) (u : User) (v : Inv s)
    (e : s.users ≡ before ++ u ∷ after) (l : u.phase ≡ leaving) where
  abbrev last : ℕ
  last = (s.locks.heap u.entry).references - 1

  mine : lookup u.key s.locks.entries ≡ some u.entry
  mine =
      All-mid (Linked s.locks.entries) before u after
        (subst (All (Linked s.locks.entries)) e v.linked)

  rest : All (Linked s.locks.entries) (before ++ after)
  rest =
      All-rest (Linked s.locks.entries) before u after
        (subst (All (Linked s.locks.entries)) e v.linked)

  old : (p : User → Bool) → count p s.users ≡ count p (before ++ after) + (if p u then 1 else 0)
  old p = ap (count p) e ∙ count-mid p before u after

  leaves-Backed :
      (m : List (Text × ℕ))
      → let x = s.locks.heap u.entry in
        Backed
          (record {
            entries = m;
            heap = update s.locks.heap u.entry (record x { references = last });
            next = s.locks.next;
          })
          (before ++ after)
  leaves-Backed m = record {
    sound = λ a. ground (arith, v.sound a, v.sound u.entry);
    exclusive = λ a. ground (arith, v.exclusive a, v.exclusive u.entry);
    counted = λ a. ground (arith, v.counted a, old (at a), v.counted u.entry);
    fresh = λ a h. ground (arith, v.fresh a h, v.live u.key u.entry mine);
    in_line =
        λ a x. ground (arith, v.in_line a x, v.in_line u.entry x, old (stands is_waiting a x));
    permitted =
        λ a x. ground (arith, v.permitted a x, v.permitted u.entry x, old (stands is_holding a x));
    permits = λ a. ground (arith, v.permits a, v.permits u.entry, old (stays is_holding a));
  }

  pub leaves-Inv :
      Inv (record { locks = release_reference u.key u.entry s.locks; users = before ++ after })
  unfolding release_reference
  leaves-Inv =
      let m = s.locks.entries in
      rw (mine, release_reference)
        (rw (==_refl u.entry) (elim (Bool-cases (last == 0)) [
          | inl z ↦ rw z (record {
            backed = leaves-Backed (delete u.key m);
            linked =
                Linked-delete u.key u.entry m (before ++ after) mine
                  (ground (arith, v.counted u.entry, old (at u.entry))) rest;
            live = λ k a h. ground (
              arith,
              v.live k a,
              lookup-delete k u.key m,
              v.distinct k u.key u.entry,
              text_eq_iff u.key k,
              mine,
            );
            distinct = λ j k a h i.
                ground (arith, v.distinct j k a, lookup-delete k u.key m, lookup-delete j u.key m);
          })
          | inr z ↦ rw z (record {
            backed = leaves-Backed m;
            linked = rest;
            live = λ k a h. ground (arith, v.live k a h);
            distinct = v.distinct;
          })
        ]))
