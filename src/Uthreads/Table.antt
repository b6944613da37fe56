-- ===== src/Uthreads/Table.antt =====
-- `getNextId` of ex2/uthreads.cpp, which walks `_threads`, a map from ids to the addresses of
-- threads.
use os_huji.Prelude.{ℕ, suc, [], ◌∷◌, ◌==◌, if◌then◌else◌, Table}

-- The loop of `getNextId`: `i` is `idToReturn`, and the list is what `iter` has still to visit.
unfoldable pub next_id_from : ℕ → Table → ℕ
next_id_from i [] = i
next_id_from i ((j, _) ∷ m) = if j == i then next_id_from (suc i) m else i

unfoldable pub get_next_id : Table → ℕ
unfolding next_id_from
get_next_id m = next_id_from 0 m
