-- ===== src/Base/Lists.antt =====
-- Lists measured by native numbers, and the searches by a Boolean test that Go writes as loops.
use Prim.Native.Nat.{ℕ, zero, suc, ◌+◌, ◌-◌, ◌≤◌, min}
use mathlib.Core.Path.{◌≡◌}
use mathlib.Core.Bool.{Bool, true, false, ◌&&◌, ◌||◌}
use mathlib.Core.List.{List, [], ◌∷◌, ◌++◌}
use mathlib.Core.Option.{Option, none, some}
use native.Mathlib.Omega.{arith}
use switch_manager.Base.Tests.{◌==◌, if◌then◌else◌}

module _ {ℓ} {A : Type ℓ} where
  abbrev pub length : List A → ℕ
  length [] = 0
  length (x ∷ xs) = suc (length xs)

  abbrev pub is_empty : List A → Bool
  is_empty [] = true
  is_empty (x ∷ xs) = false

  abbrev pub get_elem? : List A → ℕ → Option A
  get_elem? [] i = none
  get_elem? (x ∷ xs) zero = some x
  get_elem? (x ∷ xs) (suc i) = get_elem? xs i

  abbrev pub take : ℕ → List A → List A
  take zero xs = []
  take (suc n) [] = []
  take (suc n) (x ∷ xs) = x ∷ take n xs

  abbrev pub drop : ℕ → List A → List A
  drop zero xs = xs
  drop (suc n) [] = []
  drop (suc n) (x ∷ xs) = drop n xs

  -- Whether the test holds somewhere, and everywhere.
  abbrev pub any : (A → Bool) → List A → Bool
  any p [] = false
  any p (x ∷ xs) = p x || any p xs

  abbrev pub all : (A → Bool) → List A → Bool
  all p [] = true
  all p (x ∷ xs) = p x && all p xs

  -- How many elements pass a test.
  abbrev pub count : (A → Bool) → List A → ℕ
  count p [] = 0
  count p (x ∷ xs) = let rest = count p xs in if p x then suc rest else rest

  -- A predicate that holds of each element.
  abbrev pub All {κ} : (A → Type κ) → List A → Type κ
  All P [] = Unit
  All P (x ∷ xs) = P x × All P xs

  -- A predicate that holds of some element.
  pub data Any {κ} (P : A → Type κ) : List A → Type (ℓ ⊔ κ) where
    here : {x : A} {xs : List A} → P x → Any P (x ∷ xs)
    there : {x : A} {xs : List A} → Any P xs → Any P (x ∷ xs)

module _ {ℓ} {A : Type ℓ} where
  pub length-append : (xs ys : List A) → length (xs ++ ys) ≡ length xs + length ys
  length-append [] ys = omega arith
  length-append (x ∷ xs) ys = omega (arith, length-append xs ys)

  pub length-take : (n : ℕ) (xs : List A) → length (take n xs) ≡ min n (length xs)
  length-take zero xs = omega arith
  length-take (suc n) [] = omega arith
  length-take (suc n) (x ∷ xs) = omega (arith, length-take n xs)

  pub length-drop : (n : ℕ) (xs : List A) → length (drop n xs) ≡ length xs - n
  length-drop zero xs = omega arith
  length-drop (suc n) [] = omega arith
  length-drop (suc n) (x ∷ xs) = omega (arith, length-drop n xs)

  pub count-le : (p : A → Bool) (xs : List A) → count p xs ≤ length xs
  count-le p [] = omega arith
  count-le p (x ∷ xs) = ground (arith, count-le p xs)

-- Membership and removal of the first occurrence, for lists of identities.
abbrev pub contains : ℕ → List ℕ → Bool
contains g [] = false
contains g (x ∷ xs) = x == g || contains g xs

abbrev pub erase : ℕ → List ℕ → List ℕ
erase g [] = []
erase g (x ∷ xs) = let rest = erase g xs in if x == g then xs else x ∷ rest

pub length-erase :
    (g : ℕ) (xs : List ℕ) → contains g xs ≡ true → suc (length (erase g xs)) ≡ length xs
length-erase g [] h = ground arith
length-erase g (x ∷ xs) h = ground (arith, length-erase g xs)
