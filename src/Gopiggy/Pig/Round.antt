-- ===== src/Gopiggy/Pig/Round.antt =====
-- gopiggy/Gopiggy.c: what a round of the race, with its apples and `feeder`, makes of the pigs.
use morning_projects.Common.{
  ℕ, zero, suc, ◌+◌, ◌≤◌, ◌≡◌, refl, Bool, true, false, not, ◌||◌, Option, none, some, List, [],
  ◌∷◌, ◌==◌, ltb, if◌then◌else◌, arith, Bool-cases, inl, inr, ap, ◌∙◌, sym,
}
use morning_projects.Gopiggy.{
  Piggy, Feeder, awaits_release, awaits_catch, ended, Race, write_kept, max_num_pigs,
}
use morning_projects.Gopiggy.Rank.Sorted.{rank_piggy_lem}
use morning_projects.Gopiggy.Apple.{caught_by, try_catch_apple, next_apple, wakes_in, feeder_wakes}
use morning_projects.Gopiggy.Pig.{Turn, award_to, sleep_wakes, run_round}
use morning_projects.Gopiggy.Pig.Progress.{
  Progress, count, is_written, Running, IsCalm, run_pigs-Running,
}

or_true : (b : Bool) → (b || true) ≡ true
or_true true = refl
or_true false = refl

-- the parts of the race that the apples and the ranking leave as they are
record SameRace (s u : Race) : Type 0 where
  finished : u.num_finished ≡ s.num_finished
  positions : (j : ℕ) → (u.pigs j).current_position ≡ (s.pigs j).current_position
  averages : (j : ℕ) → (u.pigs j).average_speed ≡ (s.pigs j).average_speed
  caught : is_written s.apple_catcher ≡ true → is_written u.apple_catcher ≡ true

SameRace-pigs :
    (s u : Race)
    → u.num_finished ≡ s.num_finished
    → u.pigs ≡ s.pigs
    → u.apple_catcher ≡ s.apple_catcher
    → SameRace s u
SameRace-pigs s u e f g = record {
  finished = e;
  positions = λ j. ap (λ ps. (ps j).current_position) f;
  averages = λ j. ap (λ ps. (ps j).average_speed) f;
  caught = λ h. ap is_written g ∙ h;
}

SameRace-refl : (s : Race) → SameRace s s
SameRace-refl s = SameRace-pigs s s refl refl refl

if_either : (P : Race → Type 0) (b : Bool) (u v : Race) → P u → P v → P (if b then u else v)
if_either P true u v h k = h
if_either P false u v h k = k

SameRace-trans : (s u v : Race) → SameRace s u → SameRace u v → SameRace s v
SameRace-trans s u v h k = record {
  finished = k.finished ∙ h.finished;
  positions = λ j. k.positions j ∙ h.positions j;
  averages = λ j. k.averages j ∙ h.averages j;
  caught = λ w. k.caught (h.caught w);
}

next_apple-SameRace : (s : Race) → SameRace s (next_apple s)
next_apple-SameRace s =
    if_either (SameRace s) (ltb s.available 5) _ _ (SameRace-pigs s _ refl refl refl)
      (SameRace-pigs s _ refl refl refl)

wakes_in-SameRace : (f : Feeder) (w : Bool) (s : Race) → SameRace s (wakes_in f w s)
wakes_in-SameRace awaits_release w s =
    if_either (SameRace s) s.released _ s (SameRace-pigs s _ refl refl refl) (SameRace-refl s)
wakes_in-SameRace awaits_catch w s =
    if_either (SameRace s) w _ _
      (SameRace-trans s _ _ (SameRace-pigs s _ refl refl refl)
        (next_apple-SameRace (record s { released = false; available = s.available + 1 })))
      (if_either (SameRace s) s.released s _ (SameRace-refl s) (
        SameRace-trans s _ _ (SameRace-pigs s _ refl refl refl)
          (next_apple-SameRace (record s { available = s.available + 1 }))))
wakes_in-SameRace ended w s = SameRace-refl s

sleep_wakes-SameRace : (ws : List Bool) (s : Race) → SameRace s (sleep_wakes ws s)
unfolding feeder_wakes
sleep_wakes-SameRace [] s = SameRace-refl s
sleep_wakes-SameRace (w ∷ ws) s =
    SameRace-trans s (wakes_in s.feeder w s) _ (wakes_in-SameRace s.feeder w s)
      (sleep_wakes-SameRace ws (wakes_in s.feeder w s))

caught_by-SameRace : (s : Race) (c : Option ℕ) → SameRace s (caught_by s c)
caught_by-SameRace s none = record {
  finished = refl;
  positions = λ j. refl;
  averages = λ j. refl;
  caught = λ h. refl;
}
caught_by-SameRace s (some i) = record {
  finished = refl;
  positions = write_kept (λ p. p.current_position) s.pigs i _ refl;
  averages = write_kept (λ p. p.average_speed) s.pigs i _ refl;
  caught = λ h. refl;
}

-- the race is the same, and the catcher of the apple is written
abbrev Tried : Race → Race → Type 0
Tried s u = SameRace s u × (is_written u.apple_catcher ≡ true)

caught_by-Tried : (s : Race) (c : Option ℕ) → Tried s (caught_by s c)
caught_by-Tried s none = (caught_by-SameRace s none, refl)
caught_by-Tried s (some i) = (caught_by-SameRace s (some i), refl)

missed-Tried :
    (s u : Race)
    → u.num_finished ≡ s.num_finished
    → u.pigs ≡ s.pigs
    → u.apple_catcher ≡ some none
    → Tried s u
missed-Tried s u e f g = (
  record {
    finished = e;
    positions = λ j. ap (λ ps. (ps j).current_position) f;
    averages = λ j. ap (λ ps. (ps j).average_speed) f;
    caught = λ h. ap is_written g;
  },
  ap is_written g,
)

try_catch_apple-Tried : (n : ℕ) (s : Race) → Tried s (try_catch_apple n s)
unfolding try_catch_apple
try_catch_apple-Tried n s =
    if_either (Tried s) (not s.released) _ _
      (if_either (Tried s) _ _ _ (missed-Tried s _ refl refl refl)
        (missed-Tried s _ refl refl refl))
      (if_either (Tried s) (s.fall_count + 1 == 3) _ _ (caught_by-Tried s _)
        (caught_by-Tried s none))

award_to-SameRace :
    (c : Option (Option ℕ)) (s : Race)
    → is_written c ≡ true
    → (u : Race) × (award_to c s ≡ some u) × SameRace s u
award_to-SameRace none s h = cc
award_to-SameRace (some none) s h = (s, refl, SameRace-refl s)
award_to-SameRace (some (some i)) s h = (_, refl, SameRace-pigs s _ refl refl refl)

-- the catch of a round, if there is an apple, leaves the variable written
Tried-apple :
    (n : ℕ) (s : Race)
    → (ltb s.available 5 || is_written s.apple_catcher) ≡ true
    → Tried s (if ltb s.available 5 then try_catch_apple n s else s)
Tried-apple n s ready = elim (Bool-cases (ltb s.available 5)) [
  | inl more ↦ rw more (try_catch_apple-Tried n s)
  | inr no_more ↦ rw no_more (SameRace-refl s, rw no_more at ready)
]

count_same :
    (pigs pigs' : ℕ → Piggy)
    → ((j : ℕ) → (pigs' j).current_position ≡ (pigs j).current_position)
    → (n : ℕ) → count pigs' n ≡ count pigs n
count_same pigs pigs' same zero = refl
count_same pigs pigs' same (suc n) = rw (same n, count_same pigs pigs' same n) refl

Progress-same :
    (k : ℕ) (p q : Piggy)
    → q.current_position ≡ p.current_position
    → q.average_speed ≡ p.average_speed
    → Progress k p
    → Progress k q
Progress-same k p q e f (inl (there, average)) = inl (e ∙ there, rw f average)
Progress-same k p q e f (inr (far, short)) = inr (omega arith, omega arith)

-- the next round begins where this one ends
next_round :
    (n k : ℕ) (s u : Race)
    → Running n k n s
    → SameRace s u
    → is_written u.apple_catcher ≡ true
    → Running n (k + 1) 0 u
next_round n k s u r same written = record {
  counted = same.finished ∙ (r.counted ∙ sym (count_same s.pigs u.pigs same.positions n));
  ahead = λ j h. absurd (omega arith);
  behind = λ j h g.
      Progress-same (k + 1) (s.pigs j) (u.pigs j) (same.positions j) (same.averages j)
        (r.ahead j g);
  ready = rw written (or_true (ltb u.available 5));
}

pub run_round-Running :
    (t : Turn) (n k : ℕ) (s : Race)
    → n ≤ max_num_pigs
    → IsCalm t
    → Running n k 0 s
    → (u : Race) × (run_round t n s ≡ some u) × Running n (k + 1) 0 u
unfolding run_round
run_round-Running t n k s fits calm r =
    let (u, runs, r') = run_pigs-Running t n k s calm r n (omega arith) in
    let (ranked, ranks, _, _) = ((rank_piggy_lem u.pigs n u.ranked).0 fits).0 in
    let v : Race = record u { ranked = ranked } in
    let (same, written) = Tried-apple n v r'.ready in
    let w = if ltb v.available 5 then try_catch_apple n v else v in
    let (x, awards, same') = award_to-SameRace w.apple_catcher w written in
    let same'' = sleep_wakes-SameRace t.wakes x in
    let all_same =
      SameRace-trans v w (sleep_wakes t.wakes x) same
        (SameRace-trans w x (sleep_wakes t.wakes x) same' same'') in
    (
      sleep_wakes t.wakes x,
      rw (runs, ranks, awards) refl,
      next_round n k v (sleep_wakes t.wakes x)
          (record { counted = r'.counted; ahead = r'.ahead; behind = r'.behind; ready = r'.ready })
          all_same (same''.caught (same'.caught written)),
    )
