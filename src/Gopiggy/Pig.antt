-- ===== src/Gopiggy/Pig.antt =====
-- gopiggy/Gopiggy.c: the race, the thread `pig`.
pub mod Progress
pub mod Round
pub mod Finish
use morning_projects.Common.{
  ℕ, zero, suc, ◌+◌, ◌-◌, ◌/◌, ◌%◌, Bool, true, false, not, ◌&&◌, Option, none, some, List, [], ◌∷◌,
  ltb, ◌==◌, if◌then◌else◌, ◌>>=◌,
}
use morning_projects.Gopiggy.{
  Piggy, Feeder, awaits_release, Race, write, min_speed, max_speed, track_length,
}
use morning_projects.Gopiggy.Rank.{rank_piggy, rank_piggy_final}
use morning_projects.Gopiggy.Apple.{try_catch_apple, feeder_wakes}

-- What the world gives to a round: for each pig a random number and the seconds since the start that
-- `time` tells when it finishes, the seconds at the start of the round, and how `feeder` is woken
-- while the round sleeps.
pub record Turn : Type 0 where
  pub rand : ℕ → ℕ
  pub elapsed : ℕ → ℕ
  pub time_interval : ℕ
  pub wakes : List Bool

-- the cap of a pig's speed, from a random number
abbrev pub speed_cap_of : ℕ → ℕ
speed_cap_of r = 4 + r % 3

-- the pig of the index got the apple, and may still run at full speed
abbrev pub is_lucky : Option ℕ → ℕ → ℕ → Bool
is_lucky none apple_bonus i = false
is_lucky (some k) apple_bonus i = k == i && not (apple_bonus == 0)

-- A pig that is at the end gets its average, by a division by the seconds of the race, if it is 0. One
-- that is not moves, and may finish.
abbrev pub move_pig : ℕ → ℕ → ℕ → Piggy → Option (Piggy × Bool)
move_pig speed elapsed time_interval p =
    if not (p.current_position == track_length)
    then (if not (ltb (p.current_position + speed) track_length)
        then some (
          record p {
            current_position = track_length;
            time_period = elapsed + 1;
            average_speed = track_length / (elapsed + 1);
          },
          true,
        )
        else some (
          record p { current_speed = speed; current_position = p.current_position + speed },
          false,
        ))
    else if p.average_speed == 0
    then (if time_interval == 0
        then none
        else some (record p { average_speed = track_length / time_interval }, false))
    else some (p, false)

-- whether the pig runs at full speed, and its speed
abbrev pub runs_lucky : ℕ → Race → Bool
runs_lucky i s = is_lucky s.index_apple_catcher s.apple_bonus i

abbrev pub speed_of : Turn → ℕ → Race → ℕ
speed_of t i s = if runs_lucky i s then max_speed else min_speed + t.rand i % s.speed_cap i

-- the race with the pig moved, the pigs that finished counted, and a second of full speed used
abbrev pub with_moved : ℕ → Race → Piggy × Bool → Race
with_moved i s (p, finished) = record s {
  pigs = write s.pigs i p;
  num_finished = if finished then s.num_finished + 1 else s.num_finished;
  apple_bonus =
      if runs_lucky i s && not ((s.pigs i).current_position == track_length)
      then s.apple_bonus - 1
      else s.apple_bonus;
}

-- the body of the loop over the pigs
unfoldable pub run_pig : Turn → ℕ → Race → Option Race
run_pig t i s = move_pig (speed_of t i s) (t.elapsed i) t.time_interval (s.pigs i) >>= λ r.
    some (with_moved i s r)

-- the loop over the pigs, after this many of them
abbrev pub run_pigs : Turn → ℕ → Race → Option Race
run_pigs t zero s = some s
run_pigs t (suc i) s = run_pigs t i s >>= λ u. run_pig t i u

-- the pig that caught an apple is to run at full speed; the variable is read before it was written
-- when no apple was left in the first round
abbrev pub award_to : Option (Option ℕ) → Race → Option Race
award_to none s = none
award_to (some none) s = some s
award_to (some (some i)) s = some (record s { index_apple_catcher = some i; apple_bonus = 3 })

abbrev pub sleep_wakes : List Bool → Race → Race
sleep_wakes [] s = s
sleep_wakes (w ∷ ws) s = sleep_wakes ws (feeder_wakes w s)

-- the body of the loop of `pig`
unfoldable pub run_round : Turn → ℕ → Race → Option Race
run_round t num_pigs s = run_pigs t num_pigs s >>= λ u.
    rank_piggy u.pigs num_pigs u.ranked >>= λ ranked.
    (let v : Race = record u { ranked = ranked } in
      let w = if ltb v.available 5 then try_catch_apple num_pigs v else v in
      award_to w.apple_catcher w >>= λ x. some (sleep_wakes t.wakes x))

-- the loop of `pig`, and the ranking at its end; `none` also where the rounds given are not enough
unfoldable pub race : List Turn → ℕ → Race → Option Race
race [] num_pigs s = none
race (t ∷ ts) num_pigs s = run_round t num_pigs s >>= λ u.
    (let rest = race ts num_pigs u in
      if ltb u.num_finished num_pigs
      then rest
      else (rank_piggy_final u.pigs num_pigs u.ranked >>= λ ranked.
          some (record u { ranked = ranked })))

-- the globals at the start of the program, and the locals of `pig`
abbrev pub at_start : (ℕ → ℕ) → Race
at_start rand = record {
  pigs = λ i. record {
    current_speed = 0;
    average_speed = 0;
    current_position = 0;
    time_period = 0;
    num_apples_caught = 0;
  };
  ranked = λ i. 0;
  feeder = awaits_release;
  released = false;
  available = 0;
  fall_count = 0;
  num_finished = 0;
  apple_catcher = none;
  index_apple_catcher = none;
  apple_bonus = 0;
  speed_cap = λ i. speed_cap_of (rand i);
}
