-- ===== src/Gopiggy/Rank.antt =====
-- gopiggy/Gopiggy.c: `rank_piggy` and `rank_piggy_final`, insertion sorts of the indices of the pigs.
pub mod Sorted
use morning_projects.Common.{
  ℕ, zero, suc, Bool, true, false, Option, none, some, ltb, if◌then◌else◌,
}
use morning_projects.Gopiggy.{max_num_pigs, Piggy, write}

-- the inner loop, from the index `j` down: `shifts` says that a ranked pig goes behind the pig `i`
abbrev pub place_pig : (ℕ → ℕ → Bool) → (ℕ → ℕ) → ℕ → ℕ → ℕ → ℕ
place_pig shifts ranked i zero = write ranked 0 i
place_pig shifts ranked i (suc j) =
    let rest = place_pig shifts (write ranked (suc j) (ranked j)) i j in
    if shifts (ranked j) i then rest else write ranked (suc j) i

-- the outer loop after this many rounds
abbrev pub rank_rounds : (ℕ → ℕ → Bool) → (ℕ → ℕ) → ℕ → ℕ → ℕ
rank_rounds shifts ranked zero = ranked
rank_rounds shifts ranked (suc i) = place_pig shifts (rank_rounds shifts ranked i) i i

abbrev pub runs_behind : (ℕ → Piggy) → ℕ → ℕ → Bool
runs_behind pigs index i = ltb (pigs index).current_position (pigs i).current_position

abbrev pub took_longer : (ℕ → Piggy) → ℕ → ℕ → Bool
took_longer pigs index i = ltb (pigs i).time_period (pigs index).time_period

-- `rank_piggy`; with more pigs than the array has it writes behind its end
abbrev pub rank_piggy : (ℕ → Piggy) → ℕ → (ℕ → ℕ) → Option (ℕ → ℕ)
rank_piggy pigs num_pigs ranked =
    if ltb max_num_pigs num_pigs
    then none
    else some (rank_rounds (runs_behind pigs) ranked num_pigs)

-- `rank_piggy_final`
abbrev pub rank_piggy_final : (ℕ → Piggy) → ℕ → (ℕ → ℕ) → Option (ℕ → ℕ)
rank_piggy_final pigs num_pigs ranked =
    if ltb max_num_pigs num_pigs
    then none
    else some (rank_rounds (took_longer pigs) ranked num_pigs)
