-- ===== src/Base/Sort.antt =====
-- Sorting by a strict order, as `sort.Ints`, `sort.Strings` and `sort.Slice` do. `sort.Slice` is not
-- stable; where it is used here no two different elements are equal in the order.
use Prim.Native.Nat.{suc}
use mathlib.Core.Bool.{Bool, true, false, ◌||◌}
use mathlib.Core.Path.{◌≡◌, refl, ap, ◌∙◌}
use mathlib.Core.List.{List, [], ◌∷◌}
use mathlib.Core.Logic.{inl, inr}
use mathlib.Core.List.Perm
use mathlib.Core.List.{Perm}
use native.Mathlib.Omega.{arith}
use switch_manager.Base.Tests.{if◌then◌else◌, Bool-cases}
use switch_manager.Base.Lists.{All, is_empty, length}

-- A relation that holds between each element and every later one.
abbrev pub Pairs {ℓ κ} : {A : Type ℓ} → (A → A → Type κ) → List A → Type κ
Pairs R [] = Unit
Pairs R (x ∷ xs) = All (R x) xs × Pairs R xs

module _ {ℓ} {A : Type ℓ} where
  pub All-map {κ μ} :
      (P : A → Type κ) (Q : A → Type μ)
      → ((x : A) → P x → Q x)
      → (xs : List A) → All P xs
      → All Q xs
  All-map P Q f [] h = tt
  All-map P Q f (x ∷ xs) h = (f x h.0, All-map P Q f xs h.1)

  pub All-both {κ μ ν} :
      (P : A → Type κ) (Q : A → Type μ) (R : A → Type ν)
      → ((x : A) → P x → Q x → R x)
      → (xs : List A) → All P xs
      → All Q xs
      → All R xs
  All-both P Q R f [] h k = tt
  All-both P Q R f (x ∷ xs) h k = (f x h.0 k.0, All-both P Q R f xs h.1 k.1)

  pub Pairs-both {κ μ ν} :
      (P : A → A → Type κ) (Q : A → A → Type μ) (R : A → A → Type ν)
      → ((x y : A) → P x y → Q x y → R x y)
      → (xs : List A) → Pairs P xs
      → Pairs Q xs
      → Pairs R xs
  Pairs-both P Q R f [] h k = tt
  Pairs-both P Q R f (x ∷ xs) h k =
      (All-both (P x) (Q x) (R x) (f x) xs h.0 k.0, Pairs-both P Q R f xs h.1 k.1)

module _ {ℓ} {A : Type ℓ} (less : A → A → Bool) where
  unfoldable pub insert_sorted : A → List A → List A
  insert_sorted x [] = x ∷ []
  insert_sorted x (y ∷ ys) = if less y x then y ∷ insert_sorted x ys else x ∷ y ∷ ys

  unfoldable pub sort_by : List A → List A
  unfolding insert_sorted
  sort_by [] = []
  sort_by (x ∷ xs) = insert_sorted x (sort_by xs)

  -- No later element comes before an earlier one.
  abbrev pub InOrder : A → A → Type 0
  InOrder x y = less y x ≡ false

  insert_sorted-All {κ} :
      (P : A → Type κ) (x : A) (ys : List A) → P x → All P ys → All P (insert_sorted x ys)
  unfolding insert_sorted
  insert_sorted-All P x [] p h = (p, h)
  insert_sorted-All P x (y ∷ ys) p h = elim (Bool-cases (less y x)) [
    | inl t ↦ rw t (h.0, insert_sorted-All P x ys p h.1)
    | inr f ↦ rw f (p, h)
  ]

  pub sort_by-All {κ} : (P : A → Type κ) (xs : List A) → All P xs → All P (sort_by xs)
  unfolding sort_by
  sort_by-All P [] h = tt
  sort_by-All P (x ∷ xs) h = insert_sorted-All P x (sort_by xs) h.0 (sort_by-All P xs h.1)

  pub is_empty-sort_by : (xs : List A) → is_empty (sort_by xs) ≡ is_empty xs
  unfolding sort_by
  is_empty-sort_by [] = refl
  is_empty-sort_by (x ∷ xs) = not_empty x (sort_by xs)
    where
      not_empty : (x : A) (ys : List A) → is_empty (insert_sorted x ys) ≡ false
      not_empty x [] = refl
      not_empty x (y ∷ ys) = elim (Bool-cases (less y x)) [ inl t ↦ rw t | inr f ↦ rw f ]

  length-insert_sorted : (x : A) (ys : List A) → length (insert_sorted x ys) ≡ suc (length ys)
  unfolding insert_sorted
  length-insert_sorted x [] = refl
  length-insert_sorted x (y ∷ ys) = elim (Bool-cases (less y x)) [
    | inl t ↦ rw t (ap suc (length-insert_sorted x ys))
    | inr f ↦ rw f
  ]

  pub length-sort_by : (xs : List A) → length (sort_by xs) ≡ length xs
  unfolding sort_by
  length-sort_by [] = refl
  length-sort_by (x ∷ xs) = length-insert_sorted x (sort_by xs) ∙ ap suc (length-sort_by xs)

  insert_sorted-perm : (x : A) (ys : List A) → Perm (insert_sorted x ys) (x ∷ ys)
  unfolding insert_sorted
  insert_sorted-perm x [] = Perm.rfl
  insert_sorted-perm x (y ∷ ys) = elim (Bool-cases (less y x)) [
    | inl t ↦ rw t (Perm.trans (Perm.cons y (insert_sorted-perm x ys)) (Perm.swap x y ys))
    | inr f ↦ rw f Perm.rfl
  ]

  -- The result has the elements of the input.
  pub sort_by-perm : (xs : List A) → Perm (sort_by xs) xs
  unfolding sort_by
  sort_by-perm [] = Perm.rfl
  sort_by-perm (x ∷ xs) =
      Perm.trans (insert_sorted-perm x (sort_by xs)) (Perm.cons x (sort_by-perm xs))

  insert_sorted-Pairs {κ} :
      (R : A → A → Type κ)
      → ((x y : A) → R x y → R y x)
      → (x : A) (ys : List A) → All (R x) ys
      → Pairs R ys
      → Pairs R (insert_sorted x ys)
  unfolding insert_sorted
  insert_sorted-Pairs R s x [] h k = (h, k)
  insert_sorted-Pairs R s x (y ∷ ys) h k = elim (Bool-cases (less y x)) [
    | inl t ↦
        rw t (insert_sorted-All (R y) x ys (s x y h.0) k.0, insert_sorted-Pairs R s x ys h.1 k.1)
    | inr f ↦ rw f (h, k)
  ]

  -- A symmetric relation between any two elements is kept.
  pub sort_by-Pairs {κ} :
      (R : A → A → Type κ)
      → ((x y : A) → R x y → R y x)
      → (xs : List A) → Pairs R xs
      → Pairs R (sort_by xs)
  unfolding sort_by
  sort_by-Pairs R s [] h = tt
  sort_by-Pairs R s (x ∷ xs) h =
      insert_sorted-Pairs R s x (sort_by xs) (sort_by-All (R x) xs h.0) (sort_by-Pairs R s xs h.1)

  insert_sorted-first : (x : A) (ys : List A) → All (InOrder x) ys → insert_sorted x ys ≡ x ∷ ys
  unfolding insert_sorted
  insert_sorted-first x [] h = refl
  insert_sorted-first x (y ∷ ys) h = rw (h.0)

  -- A list in order stays as it is.
  pub sort_by_same : (xs : List A) → Pairs InOrder xs → sort_by xs ≡ xs
  unfolding sort_by
  sort_by_same [] h = refl
  sort_by_same (x ∷ xs) h = rw (sort_by_same xs h.1) (insert_sorted-first x xs h.0)

  module _ (asym : (x y : A) → less x y ≡ true → less y x ≡ false)
      (split : (x y z : A) → less x z ≡ true → less x y || less y z ≡ true) where
    insert_sorted-InOrder :
        (x : A) (ys : List A) → Pairs InOrder ys → Pairs InOrder (insert_sorted x ys)
    unfolding insert_sorted
    insert_sorted-InOrder x [] h = (tt, tt)
    insert_sorted-InOrder x (y ∷ ys) h = elim (Bool-cases (less y x)) [
      | inl t ↦
          rw t (insert_sorted-All (InOrder y) x ys (asym y x t) h.0, insert_sorted-InOrder x ys h.1)
      | inr f ↦ rw f (
        (f, All-map (InOrder y) (InOrder x) (λ z k. ground (arith, f, k, split z y x)) ys h.0),
        h,
      )
    ]

    -- The result is in order.
    pub sort_by-InOrder : (xs : List A) → Pairs InOrder (sort_by xs)
    unfolding sort_by
    sort_by-InOrder [] = tt
    sort_by-InOrder (x ∷ xs) = insert_sorted-InOrder x (sort_by xs) (sort_by-InOrder xs)
