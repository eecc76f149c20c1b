-- ===== src/Task/Batch/Snapshot.antt =====
-- What `BatchSnapshot.Validate` lets through.
use switch_manager.Base.{
  ℕ, zero, suc, ◌+◌, ◌≡◌, ◌⊎◌, inl, inr, refl, sym, ap, subst, true, false, List, [], ◌∷◌, some,
  arith, length, get_elem?, any, is_ok,
}
use switch_manager.Base.Text.{Text, text_eq, text_eq_iff}
use switch_manager.Base.Int.{pos, eq_int_iff}
use switch_manager.Task.Batch.{
  BatchItemState, BatchSnapshot, check_items, snapshot_validate, item_state_validate,
}

-- The item at index `i` of the batch: in its place, and linked to the child task that it names.
abbrev pub GoodItem : Text → ℕ → BatchItemState → Type 0
GoodItem batch i s =
    (s.item.batch_task_id ≡ batch)
    × (s.item.sequence_no ≡ pos (suc i))
    × (s.item.child_task_id ≡ s.child.task.id)
    × (s.item.device_id ≡ s.child.task.target_id)

item_linked :
    (s : BatchItemState)
    → is_ok (item_state_validate s) ≡ true
    → (s.item.child_task_id ≡ s.child.task.id) × (s.item.device_id ≡ s.child.task.target_id)
unfolding item_state_validate
item_linked s h = (
  (text_eq_iff s.item.child_task_id s.child.task.id).0 (ground arith),
  (text_eq_iff s.item.device_id s.child.task.target_id).0 (ground arith),
)

-- One round of the loop.
round :
    (b : Text) (i : ℕ) (ds cs : List Text) (s : BatchItemState) (rest : List BatchItemState)
    → is_ok (check_items b i ds cs (s ∷ rest)) ≡ true
    → GoodItem b i s
      × (any (text_eq s.item.device_id) ds ≡ false)
      × (any (text_eq s.item.child_task_id) cs ≡ false)
      × (is_ok (check_items b (suc i) (s.item.device_id ∷ ds) (s.item.child_task_id ∷ cs) rest)
          ≡ true)
unfolding check_items
round b i ds cs s rest h =
    let (c, d) = item_linked s (ground arith) in
    (
      (
        (text_eq_iff s.item.batch_task_id b).0 (ground arith),
        (eq_int_iff s.item.sequence_no (pos (suc i))).0 (ground arith),
        c,
        d,
      ),
      ground arith,
      ground arith,
      ground arith,
    )

good_at :
    (b : Text) (i : ℕ) (ds cs : List Text) (k : ℕ) (xs : List BatchItemState) (s : BatchItemState)
    → is_ok (check_items b i ds cs xs) ≡ true
    → get_elem? xs k ≡ some s
    → GoodItem b (i + k) s
good_at b i ds cs k [] s h e = cc
good_at b i ds cs zero (x ∷ xs) s h e =
    let (g, _, _, _) = round b i ds cs x xs h in ground (arith, g)
good_at b i ds cs (suc k) (x ∷ xs) s h e =
    let (_, _, _, r) = round b i ds cs x xs h in
    let z : i + suc k ≡ suc i + k = omega arith in
    rw z (good_at b (suc i) (x.item.device_id ∷ ds) (x.item.child_task_id ∷ cs) k xs s r e)

-- An item that comes later has neither a device nor a child that was seen before.
unseen :
    (b : Text) (i : ℕ) (ds cs : List Text) (k : ℕ) (xs : List BatchItemState) (s : BatchItemState)
    → is_ok (check_items b i ds cs xs) ≡ true
    → get_elem? xs k ≡ some s
    → (any (text_eq s.item.device_id) ds ≡ false) × (any (text_eq s.item.child_task_id) cs ≡ false)
unseen b i ds cs k [] s h e = cc
unseen b i ds cs zero (x ∷ xs) s h e =
    let (_, d, c, _) = round b i ds cs x xs h in ground (arith, d, c)
unseen b i ds cs (suc k) (x ∷ xs) s h e =
    let (_, _, _, r) = round b i ds cs x xs h in
    ground (arith, unseen b (suc i) (x.item.device_id ∷ ds) (x.item.child_task_id ∷ cs) k xs s r e)

-- Two items with the same device, or with the same child, are one.
abbrev Same : BatchItemState → BatchItemState → Type 0
Same s t = (s.item.device_id ≡ t.item.device_id) ⊎ (s.item.child_task_id ≡ t.item.child_task_id)

first_later :
    (b : Text) (i : ℕ) (ds cs : List Text) (k : ℕ) (xs : List BatchItemState) (x t : BatchItemState)
    → is_ok (check_items b i ds cs (x ∷ xs)) ≡ true
    → get_elem? xs k ≡ some t
    → ¬ Same x t
first_later b i ds cs k xs x t h e m =
    let (_, _, _, r) = round b i ds cs x xs h in
    let (d, c) = unseen b (suc i) (x.item.device_id ∷ ds) (x.item.child_task_id ∷ cs) k xs t r e in
    ground (
      arith,
      m,
      d,
      c,
      text_eq_iff t.item.device_id x.item.device_id,
      text_eq_iff t.item.child_task_id x.item.child_task_id,
    )

one_item :
    (b : Text) (i : ℕ) (ds cs : List Text) (j k : ℕ) (xs : List BatchItemState)
    (s t : BatchItemState)
    → is_ok (check_items b i ds cs xs) ≡ true
    → get_elem? xs j ≡ some s
    → get_elem? xs k ≡ some t
    → Same s t
    → j ≡ k
one_item b i ds cs j k [] s t h e f m = cc
one_item b i ds cs zero zero (x ∷ xs) s t h e f m = refl
one_item b i ds cs zero (suc k) (x ∷ xs) s t h e f m =
    let q : s ≡ x = cc in absurd (first_later b i ds cs k xs x t h f (subst (λ y. Same y t) q m))
one_item b i ds cs (suc j) zero (x ∷ xs) s t h e f m =
    let q : t ≡ x = cc in
    absurd (first_later b i ds cs j xs x s h e (swap s x (subst (λ y. Same s y) q m)))
  where
    swap : (x y : BatchItemState) → Same x y → Same y x
    swap x y (inl p) = inl (sym p)
    swap x y (inr p) = inr (sym p)
one_item b i ds cs (suc j) (suc k) (x ∷ xs) s t h e f m =
    let (_, _, _, r) = round b i ds cs x xs h in
    ap suc
      (one_item b (suc i) (x.item.device_id ∷ ds) (x.item.child_task_id ∷ cs) j k xs s t r e f m)

snapshot_items :
    (s : BatchSnapshot)
    → is_ok (snapshot_validate s) ≡ true
    → (is_ok (check_items s.batch.id 0 [] [] s.items) ≡ true)
      × (pos (length s.items) ≡ s.batch.total_count)
unfolding snapshot_validate
snapshot_items s h =
    (ground arith, (eq_int_iff (pos (length s.items)) s.batch.total_count).0 (ground arith))

-- A snapshot that passes the checks has as many items as the batch counts; the item at index `i` has
-- the sequence number `i + 1` and belongs to the batch, to its child task and to its device; and no
-- two items share a device or a child task.
pub snapshot_validate-items :
    (s : BatchSnapshot)
    → is_ok (snapshot_validate s) ≡ true
    → (pos (length s.items) ≡ s.batch.total_count)
      × ((i : ℕ) (x : BatchItemState) → get_elem? s.items i ≡ some x → GoodItem s.batch.id i x)
      × ((i j : ℕ) (x y : BatchItemState)
          → get_elem? s.items i ≡ some x
          → get_elem? s.items j ≡ some y
          → (x.item.device_id ≡ y.item.device_id) ⊎ (x.item.child_task_id ≡ y.item.child_task_id)
          → i ≡ j)
snapshot_validate-items s h =
    let (c, n) = snapshot_items s h in
    (
      n,
      λ i x e.
          let z : 0 + i ≡ i = omega arith in
          subst (λ k. GoodItem s.batch.id k x) z (good_at s.batch.id 0 [] [] i s.items x c e),
      λ i j x y e f m. one_item s.batch.id 0 [] [] i j s.items x y c e f m,
    )
