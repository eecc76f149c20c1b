-- ===== src/Base/Results.antt =====
-- A Go function with an error result: a value or an error, with early return on the error.
use mathlib.Core.Path.{◌≡◌, refl}
use mathlib.Core.Bool.{Bool, true, false}
use mathlib.Core.Logic.{◌⊎◌, inl, inr, ◌↔◌}

pub data Result {ℓ κ} (E : Type ℓ) (A : Type κ) : Type (ℓ ⊔ κ) where
  err : E → Result E A
  ok : A → Result E A

-- `value, err := first(); if err != nil { return err }; return next(value)`.
infixl 5 ◌>>=◌ ◌>>◌
abbrev pub ◌>>=◌ {ℓ κ μ} :
    {E : Type ℓ} {A : Type κ} {B : Type μ} (first : Result E A) (next : A → Result E B) → Result E B
err problem >>= next = err problem
ok value >>= next = next value

-- The same for a check, which has no value.
abbrev pub ◌>>◌ {ℓ κ} :
    {E : Type ℓ} {B : Type κ} (check : Result E (Unit {0})) (next : Result E B) → Result E B
check >> next = check >>= λ _. next

-- `if cond { return err }`.
abbrev pub fail_if {ℓ} : {E : Type ℓ} → Bool → E → Result E (Unit {0})
fail_if true e = err e
fail_if false e = ok tt

-- The error of a callee under the caller's own (`fmt.Errorf` with `%w`, `apperror.Wrap`).
abbrev pub map_err {ℓ κ μ} :
    {E : Type ℓ} {F : Type κ} {A : Type μ} → (E → F) → Result E A → Result F A
map_err f (ok a) = ok a
map_err f (err e) = err (f e)

-- `err == nil`.
abbrev pub is_ok {ℓ κ} : {E : Type ℓ} {A : Type κ} → Result E A → Bool
is_ok (ok a) = true
is_ok (err e) = false

-- A chain that ends well went well at its first step.
pub >>=-eq-ok {ℓ κ μ} :
    {E : Type ℓ} {A : Type κ} {B : Type μ} (first : Result E A) (next : A → Result E B) {last : B}
    → (first >>= next) ≡ ok last
    → (value : A) × (first ≡ ok value) × (next value ≡ ok last)
>>=-eq-ok (err problem) next done = cc
>>=-eq-ok (ok value) next done = (value, refl, done)

pub Result-cases {ℓ κ} :
    {E : Type ℓ} {A : Type κ} (r : Result E A) → ((a : A) × (r ≡ ok a)) ⊎ ((e : E) × (r ≡ err e))
Result-cases (ok a) = inl (a, refl)
Result-cases (err e) = inr (e, refl)

pub ok_injective {ℓ κ} :
    {E : Type ℓ} {A : Type κ} {a b : A} → Path (Result E A) (ok a) (ok b) → a ≡ b
ok_injective h = cc

pub is_ok_iff {ℓ} :
    {E : Type ℓ} (r : Result E (Unit {0})) → (is_ok r ≡ true) ↔ Path (Result E (Unit {0})) r (ok tt)
is_ok_iff (ok tt) = (λ h. refl, λ h. refl)
is_ok_iff (err e) = (λ h. cc, λ h. cc)

-- A check that passes, and a callee that had no error.
pub fail_if_passed {ℓ} : {E : Type ℓ} (b : Bool) (e : E) → fail_if b e ≡ ok tt → b ≡ false
fail_if_passed true e h = cc
fail_if_passed false e h = refl

pub map_err_ok {ℓ κ μ} :
    {E : Type ℓ} {F : Type κ} {A : Type μ} (f : E → F) (r : Result E A) {a : A}
    → map_err f r ≡ ok a
    → r ≡ ok a
map_err_ok f (ok b) h = cc
map_err_ok f (err e) h = cc

-- The first check of a chain that ends well, and what is left of the chain.
pub fail_if-then {ℓ κ} :
    {E : Type ℓ} {A : Type κ} (b : Bool) (e : E) {rest : Result E A} {a : A}
    → (fail_if b e >> rest) ≡ ok a
    → (b ≡ false) × Path (Result E A) rest (ok a)
fail_if-then true e h = cc
fail_if-then false e h = (refl, h)

pub check-then {ℓ κ} :
    {E : Type ℓ} {A : Type κ} (c : Result E (Unit {0})) {rest : Result E A} {a : A}
    → (c >> rest) ≡ ok a
    → Path (Result E (Unit {0})) c (ok tt) × Path (Result E A) rest (ok a)
check-then (ok tt) h = (refl, h)
check-then (err e) h = cc
