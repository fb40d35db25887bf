-- ===== src/Gopiggy/Tests.antt =====
-- Runs of gopiggy/Gopiggy.c.
use morning_projects.Common.{ℕ, zero, suc, ◌≡◌, true, some, List, [], ◌∷◌, arith}
use morning_projects.Gopiggy.{Race}
use morning_projects.Gopiggy.Pig.{Turn, race, at_start}
use morning_projects.Gopiggy.Pig.Finish.{AreCalm, IsOver, race-IsOver}

abbrev slow_turn : Turn
slow_turn = record { rand = λ i. 0; elapsed = λ i. 120; time_interval = 0; wakes = true ∷ [] }

abbrev turns : ℕ → List Turn
turns zero = []
turns (suc n) = slow_turn ∷ turns n

turns-AreCalm : (n : ℕ) → AreCalm (turns n)
turns-AreCalm zero = tt
turns-AreCalm (suc n) = (λ i. omega arith, turns-AreCalm n)

race-IsOver_example : (v : Race) × (race (turns 100) 4 (at_start (λ i. i)) ≡ some v) × IsOver 4 v
race-IsOver_example =
    race-IsOver (turns 100) 4 (λ i. i) (omega arith) (turns-AreCalm 100) (omega arith)
