-- ===== src/Gopiggy/Pig/Finish.antt =====
-- gopiggy/Gopiggy.c: the end of the race.
use morning_projects.Common.{
  ℕ, zero, suc, ◌+◌, ◌<◌, ◌≤◌, ◌≡◌, refl, true, false, some, List, [], ◌∷◌, ◌==◌, ltb, ◌>>=◌,
  length, arith, Bool-cases, inl, inr, ◌∙◌, sym, subst,
}
use mathlib.Core.List.{Perm}
use morning_projects.Gopiggy.{Piggy, Race, track_length, max_num_pigs}
use morning_projects.Gopiggy.Rank.{rank_piggy_final, took_longer}
use morning_projects.Gopiggy.Rank.Sorted.{backwards, indices, InOrder, rank_piggy_lem}
use morning_projects.Gopiggy.Pig.{Turn, run_round, race, at_start}
use morning_projects.Gopiggy.Pig.Progress.{Progress, count, tick, Running, IsCalm}
use morning_projects.Gopiggy.Pig.Round.{run_round-Running}

-- every round is calm
abbrev pub AreCalm : List Turn → Type 0
AreCalm [] = Unit
AreCalm (t ∷ ts) = IsCalm t × AreCalm ts

-- All pigs are at the end of the track and counted, and each is ranked once, none before one that took
-- less time.
pub record IsOver (n : ℕ) (s : Race) : Type 0 where
  pub finished : (i : ℕ) → i < n → (s.pigs i).current_position ≡ track_length
  pub counted : s.num_finished ≡ n
  pub ranked : Perm (backwards s.ranked n) (indices n)
  pub sorted : InOrder (took_longer s.pigs) (backwards s.ranked n)

tick_full : (p : Piggy) → p.current_position ≡ track_length → tick p ≡ 1
tick_full p e = rw e refl

tick_one : (p : Piggy) → tick p ≤ 1
tick_one p = ground arith

full_tick : (p : Piggy) → 1 ≤ tick p → p.current_position ≡ track_length
full_tick p h = ground arith

count_bound : (pigs : ℕ → Piggy) (n : ℕ) → count pigs n ≤ n
count_bound pigs zero = omega arith
count_bound pigs (suc n) = let t = tick_one (pigs n) in let c = count_bound pigs n in omega arith

-- after 100 rounds nobody is on the track
count_all :
    (pigs : ℕ → Piggy) (n k : ℕ)
    → 100 ≤ k
    → ((i : ℕ) → i < n → Progress k (pigs i))
    → count pigs n ≡ n
count_all pigs zero k h on = refl
count_all pigs (suc n) k h on =
    let rest = count_all pigs n k h (λ i g. on i (omega arith)) in
    let full = tick_full (pigs n) (elim (on n (omega arith)) [
      | inl (there, _) ↦ there
      | inr (far, short) ↦ absurd (omega arith)
    ]) in
    omega arith

less : (i n : ℕ) → i < suc n → (i == n) ≡ false → i < n
less i n h off = ground arith

at_most : (n f c : ℕ) → f ≡ c → n ≤ f → c ≤ n → f ≡ n
at_most n f c e h k = omega arith

count-finished :
    (pigs : ℕ → Piggy) (n : ℕ)
    → n ≤ count pigs n
    → (i : ℕ) → i < n
    → (pigs i).current_position ≡ track_length
count-finished pigs zero h i g = absurd (omega arith)
count-finished pigs (suc n) h i g =
    let t = tick_one (pigs n) in
    let c = count_bound pigs n in
    elim (Bool-cases (i == n)) [
      | inl is ↦
          let at_n : n ≡ i = ground arith in
          subst (λ m. (pigs m).current_position ≡ track_length) at_n
            (full_tick (pigs n) (omega arith))
      | inr off ↦ count-finished pigs n (omega arith) i (less i n g off)
    ]

no_more : (f c n : ℕ) → f ≡ c → c ≡ n → ltb f n ≡ true → ⊥
no_more f c n e h k = ground arith

race_last-IsOver :
    (n : ℕ) (u : Race)
    → n ≤ max_num_pigs
    → u.num_finished ≡ count u.pigs n
    → n ≤ u.num_finished
    → (s : Race) × ((rank_piggy_final u.pigs n u.ranked >>= λ ranked.
          some (record u { ranked = ranked }))
        ≡ some s)
      × IsOver n s
race_last-IsOver n u fits counted all =
    let (ranked, ranks, each, order) = ((rank_piggy_lem u.pigs n u.ranked).0 fits).1 in
    (
      record u { ranked = ranked },
      rw ranks refl,
      record {
        finished = count-finished u.pigs n (omega arith);
        counted = at_most n u.num_finished (count u.pigs n) counted all (count_bound u.pigs n);
        ranked = each;
        sorted = order;
      },
    )

module _ (t : Turn) (ts : List Turn) (n : ℕ) (s u : Race) (runs : run_round t n s ≡ some u) where
  race_next : ltb u.num_finished n ≡ true → race (t ∷ ts) n s ≡ race ts n u
  unfolding race
  race_next more = rw (runs, more) refl

  race_last :
      ltb u.num_finished n ≡ false
      → race (t ∷ ts) n s
        ≡ (rank_piggy_final u.pigs n u.ranked >>= λ ranked. some (record u { ranked = ranked }))
  unfolding race
  race_last done = rw (runs, done) refl

-- a round, and the rounds behind it if they are needed
race_step :
    (t : Turn) (ts : List Turn) (n k : ℕ) (s : Race)
    → n ≤ max_num_pigs
    → IsCalm t
    → Running n k 0 s
    → ((u : Race)
        → Running n (k + 1) 0 u
        → ltb u.num_finished n ≡ true
        → (v : Race) × (race ts n u ≡ some v) × IsOver n v)
    → (v : Race) × (race (t ∷ ts) n s ≡ some v) × IsOver n v
race_step t ts n k s fits calm r go_on =
    let (u, runs, r') = run_round-Running t n k s fits calm r in
    elim (Bool-cases (ltb u.num_finished n)) [
      | inl more ↦
          let (v, on, over) = go_on u r' more in (v, race_next t ts n s u runs more ∙ on, over)
      | inr done ↦
          let (v, ranks, over) = race_last-IsOver n u fits r'.counted (ground arith) in
          (v, race_last t ts n s u runs done ∙ ranks, over)
    ]

race_on :
    (ts : List Turn) (t : Turn) (n k : ℕ) (s : Race)
    → n ≤ max_num_pigs
    → IsCalm t
    → AreCalm ts
    → 100 ≤ k + 1 + length ts
    → Running n k 0 s
    → (v : Race) × (race (t ∷ ts) n s ≡ some v) × IsOver n v
race_on [] t n k s fits calm calms enough r = race_step t [] n k s fits calm r (λ u r' more.
    let all = count_all u.pigs n (k + 1) (omega arith) (λ i h. r'.behind i (omega arith) h) in
    absurd (no_more u.num_finished (count u.pigs n) n r'.counted all more))
race_on (t' ∷ ts) t n k s fits calm (calm', calms) enough r =
    race_step t (t' ∷ ts) n k s fits calm r
      (λ u r' more. race_on ts t' n (k + 1) u fits calm' calms (omega arith) r')

count_start : (pigs : ℕ → Piggy) → ((i : ℕ) → tick (pigs i) ≡ 0) → (n : ℕ) → count pigs n ≡ 0
count_start pigs e zero = refl
count_start pigs e (suc n) = rw (e n, count_start pigs e n) refl

-- A race of at most MAX_NUM_PIGS pigs, from the start of the program, is over within 100 rounds,
-- whatever the random numbers are and however `feeder` is woken, when no time that is measured reaches
-- 600 seconds: no round reads a variable that was not written or divides by 0, and at the end all pigs
-- are at the end of the track and counted, and each is ranked once, none before one that took less
-- time.
pub race-IsOver :
    (ts : List Turn) (n : ℕ) (rand : ℕ → ℕ)
    → n ≤ max_num_pigs
    → AreCalm ts
    → 100 ≤ length ts
    → (v : Race) × (race ts n (at_start rand) ≡ some v) × IsOver n v
race-IsOver [] n rand fits calms enough = absurd (omega arith)
race-IsOver (t ∷ ts) n rand fits (calm, calms) enough =
    race_on ts t n 0 (at_start rand) fits calm calms (omega arith) (record {
      counted = sym (count_start (at_start rand).pigs (λ i. refl) n);
      ahead = λ j h. absurd (omega arith);
      behind = λ j h g. inr (omega arith, omega arith);
      ready = refl;
    })
