-- ===== src/Concurrency/Semaphore/Fifo.antt =====
-- The order in which waiters are served.
use switch_manager.Base.{ℕ, List, [], ◌∷◌}
use switch_manager.Concurrency.Semaphore.{Semaphore, release}

-- The permits are released one after another.
abbrev pub release_all : List ℕ → Semaphore → Semaphore
release_all [] s = s
release_all (p ∷ ps) s = release_all ps (release p s)
