-- ===== src/AppError/Normal.antt =====
-- What `New`, `Wrap` and `Normalize` let out.
use switch_manager.Base.{◌≤◌, ◌≡◌, refl, none, some, arith, Option-cases, inl, inr}
use switch_manager.Base.Text.{Text}
use switch_manager.AppError.{Code, Definition, lookup, Public, Cause, build, internal}

-- The code is known, the status is the canonical one of the code, and a server error shows its
-- default message and no details.
pub record IsCanonical (p : Public) : Type 0 where
  pub definition : Definition
  pub known : lookup p.code ≡ some definition
  pub status : p.http_status ≡ definition.http_status
  pub silent : 500 ≤ p.http_status → (p.message ≡ definition.default_message) × (p.details ≡ none)

-- Whatever code and message an error is made of, its public part is canonical.
pub build-IsCanonical :
    (code : Code) (message : Text) (cause : Cause) → IsCanonical (build code message cause).0
unfolding build
build-IsCanonical code message cause = elim (Option-cases (lookup code)) [
  | inl e ↦
      rw (e, build)
        (record {
          definition = internal;
          known = unfold lookup in refl;
          status = refl;
          silent = λ s. (refl, refl);
        })
  | inr (d, e) ↦
      rw (e, build)
        (record { definition = d; known = e; status = refl; silent = λ s. ground arith })
]
