-- ===== src/Cbuffer/Fifo.antt =====
-- What a ring of `cap` cells promises: a bounded queue of cells, oldest first.
use concentrator.Common.{
  ℕ, Option, none, some, List, [], ◌∷◌, ◌++◌, Bool, true, false, ◌==◌, if◌then◌else◌, length,
}

abbrev pub push : ℕ → List (List ℕ) → List ℕ → List (List ℕ) × Bool
push cap q cell = if length q == cap then (q, false) else (q ++ (cell ∷ []), true)

abbrev pub pop : List (List ℕ) → List (List ℕ) × Option (List ℕ)
pop [] = ([], none)
pop (cell ∷ q) = (q, some cell)
