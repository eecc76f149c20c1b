-- ===== src/Concurrency/DeviceLocks/Table.antt =====
-- The Go map from device IDs to entries, as an association list.
use switch_manager.Base.{ℕ, ◌≡◌, refl, List, [], ◌∷◌, Option, none, some, if◌then◌else◌, arith}
use switch_manager.Base.Text.{Text, text_eq, text_eq_iff}

unfoldable pub lookup : Text → List (Text × ℕ) → Option ℕ
lookup k [] = none
lookup k ((j, a) ∷ m) = if text_eq j k then some a else lookup k m

pub delete : Text → List (Text × ℕ) → List (Text × ℕ)
delete k [] = []
delete k ((j, a) ∷ m) = let rest = delete k m in if text_eq j k then rest else (j, a) ∷ rest

pub lookup-add :
    (k j : Text) (a : ℕ) (m : List (Text × ℕ))
    → lookup k ((j, a) ∷ m) ≡ (if text_eq j k then some a else lookup k m)
unfolding lookup
lookup-add k j a m = refl

pub lookup-delete :
    (k j : Text) (m : List (Text × ℕ))
    → lookup k (delete j m) ≡ (if text_eq j k then none else lookup k m)
unfolding lookup delete
lookup-delete k j [] = ground arith
lookup-delete k j ((i, a) ∷ m) =
    ground (arith, lookup-delete k j m, text_eq_iff i j, text_eq_iff i k, text_eq_iff j k)

pub lookup-empty : (k : Text) → lookup k [] ≡ none
unfolding lookup
lookup-empty k = refl
