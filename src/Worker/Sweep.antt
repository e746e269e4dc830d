-- ===== src/Worker/Sweep.antt =====
-- The sweep over the searches: what `expireCourierAcceptanceWindows` leaves behind.
use wassal.Prelude.{ℕ, Bool, false, List, [], ◌∷◌, ◌||◌, ◌==◌}
use wassal.Store.{Database}
use wassal.Store.Table.{matches}
use wassal.Worker.Expire.{is_overdue}

-- Whether the order's search is overdue at `now`.
abbrev pub search_is_overdue : ℕ → ℕ → Database → Bool
search_is_overdue now id db = matches id (is_overdue now) db.orders

-- Whether the id is one of the candidates.
abbrev pub is_candidate : ℕ → List ℕ → Bool
is_candidate id [] = false
is_candidate id (candidate ∷ candidates) = candidate == id || is_candidate id candidates
