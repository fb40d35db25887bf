-- ===== src/Gopiggy/Apple.antt =====
-- gopiggy/Gopiggy.c: the apples, `try_catch_apple` of the thread `pig` and the thread `feeder`.
use morning_projects.Common.{
  ℕ, zero, suc, ◌+◌, Bool, true, false, not, ◌&&◌, Option, none, some, ltb, leb, ◌==◌,
  if◌then◌else◌,
}
use morning_projects.Gopiggy.{Piggy, Feeder, awaits_release, awaits_catch, ended, Race, write}

-- `f_apple_locations`; the callers test that the index is below 5
abbrev pub apple_location : ℕ → ℕ
apple_location zero = 100
apple_location (suc zero) = 200
apple_location (suc (suc zero)) = 300
apple_location (suc (suc (suc zero))) = 400
apple_location (suc (suc (suc (suc k)))) = 500

-- the loop that looks for a pig less than 4 yards before the apple, the ranks from `i` on
abbrev pub find_catcher : (ℕ → Piggy) → (ℕ → ℕ) → ℕ → ℕ → ℕ → Option ℕ
find_catcher pigs ranked location i zero = none
find_catcher pigs ranked location i (suc left) =
    let position = (pigs (ranked i)).current_position in
    let rest = find_catcher pigs ranked location (i + 1) left in
    if leb position location && ltb location (position + 4) then some (ranked i) else rest

-- the catch of an apple
abbrev pub caught_by : Race → Option ℕ → Race
caught_by s none = record s { fall_count = s.fall_count + 1; apple_catcher = some none }
caught_by s (some i) =
    let p = s.pigs i in
    record s {
      fall_count = s.fall_count + 1;
      released = false;
      pigs = write s.pigs i (record p { num_apples_caught = p.num_apples_caught + 1 });
      apple_catcher = some (some i);
    }

-- `try_catch_apple`, with its result written to `apple_catcher`
unfoldable pub try_catch_apple : ℕ → Race → Race
try_catch_apple num_pigs s =
    let location = apple_location s.available in
    let first = (s.pigs (s.ranked 0)).current_position in
    if not s.released
    then (if ltb location (first + 25) && ltb first location
        then record s { released = true; fall_count = 0; apple_catcher = some none }
        else record s { apple_catcher = some none })
    else if s.fall_count + 1 == 3
    then caught_by s (find_catcher s.pigs s.ranked location 0 num_pigs)
    else caught_by s none

-- the test of the outer loop of `feeder`, and the start of its body
abbrev pub next_apple : Race → Race
next_apple s =
    if ltb s.available 5
    then record s { released = false; feeder = awaits_release }
    else record s { released = false; feeder = ended }

-- `feeder` is woken: in the first wait it looks for `f_apple_released`; in the second one it goes on
-- to the next apple when the time is over or the apple is not there any more
abbrev pub wakes_in : Feeder → Bool → Race → Race
wakes_in awaits_release timed_out s = if s.released then record s { feeder = awaits_catch } else s
wakes_in awaits_catch timed_out s =
    if timed_out
    then next_apple (record s { released = false; available = s.available + 1 })
    else if s.released
    then s
    else next_apple (record s { available = s.available + 1 })
wakes_in ended timed_out s = s

unfoldable pub feeder_wakes : Bool → Race → Race
feeder_wakes timed_out s = wakes_in s.feeder timed_out s
