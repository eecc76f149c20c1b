-- ===== src/Base/Int.antt =====
-- Go's `int`, unbounded: the sources only compare and check these values.
use Prim.Native.Nat.{ℕ, suc, ◌+◌, ◌-◌}
use mathlib.Core.Path.{◌≡◌}
use mathlib.Core.Logic.{◌↔◌}
use mathlib.Core.Bool.{Bool, true, false}
use native.Mathlib.Omega.{arith}
use switch_manager.Base.Tests.{ltb, leb, ◌==◌, if◌then◌else◌}

-- `negsuc n` is -(n + 1).
pub data ℤ : Type 0 where
  pos : ℕ → ℤ
  negsuc : ℕ → ℤ

abbrev pub lt_int : ℤ → ℤ → Bool
lt_int (pos a) (pos b) = ltb a b
lt_int (pos a) (negsuc b) = false
lt_int (negsuc a) (pos b) = true
lt_int (negsuc a) (negsuc b) = ltb b a

abbrev pub le_int : ℤ → ℤ → Bool
le_int (pos a) (pos b) = leb a b
le_int (pos a) (negsuc b) = false
le_int (negsuc a) (pos b) = true
le_int (negsuc a) (negsuc b) = leb b a

abbrev pub eq_int : ℤ → ℤ → Bool
eq_int (pos a) (pos b) = a == b
eq_int (pos a) (negsuc b) = false
eq_int (negsuc a) (pos b) = false
eq_int (negsuc a) (negsuc b) = a == b

pub eq_int_iff : (a b : ℤ) → (eq_int a b ≡ true) ↔ (a ≡ b)
eq_int_iff a b = ground arith

-- `+` on integers.
abbrev pub add_int : ℤ → ℤ → ℤ
add_int (pos a) (pos b) = pos (a + b)
add_int (pos a) (negsuc b) = if ltb b a then pos (a - suc b) else negsuc (b - a)
add_int (negsuc a) (pos b) = if ltb a b then pos (b - suc a) else negsuc (a - b)
add_int (negsuc a) (negsuc b) = negsuc (suc (a + b))
