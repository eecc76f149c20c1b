-- ===== src/AppError/Tests.antt =====
-- Errors as handlers see them.
use switch_manager.Base.{◌≡◌, refl, some}
use switch_manager.Base.Text.{codes, is_blank}
use switch_manager.AppError.{
  validation_error, database_unavailable, no_cause, plain, Error, wrap, build, normalize, as_app,
  lookup,
}
use switch_manager.AppError.Normal.{IsCanonical, build-IsCanonical}

abbrev lost_connection : Error
lost_connection = plain (codes "dial tcp 10.0.0.1")

-- A server error hides what it was wrapped with.
hidden_cause :
    (normalize (some (wrap database_unavailable (codes "secret") lost_connection))).message
    ≡ codes "database is unavailable"
unfolding normalize as_app wrap build lookup is_blank
hidden_cause = refl

build-IsCanonical_example : IsCanonical (build validation_error (codes "bad name") no_cause).0
build-IsCanonical_example = build-IsCanonical validation_error (codes "bad name") no_cause
