-- ===== src/Gopiggy/Pig/Progress.antt =====
-- gopiggy/Gopiggy.c: how far the pigs get in a round of the race.
use morning_projects.Common.{
  ℕ, zero, suc, ◌+◌, ◌*◌, ◌/◌, ◌%◌, ◌<◌, ◌≤◌, ◌≡◌, ◌⊎◌, refl, Bool, true, false, ◌||◌, Option, none,
  some, ◌==◌, ltb, if◌then◌else◌, ◌>>=◌, arith, Bool-cases, inl, inr, ap, sym, subst,
}
use native.Mathlib.Nat.{div-add-mod, mod-lt}
use morning_projects.Gopiggy.{Piggy, Race, write, track_length}
use morning_projects.Gopiggy.Pig.{
  Turn, speed_of, runs_lucky, with_moved, move_pig, run_pig, run_pigs,
}

-- after `k` rounds the pig is at the end, with an average, or it has run `6 * k` yards
abbrev pub Progress : ℕ → Piggy → Type 0
Progress k p =
    ((p.current_position ≡ track_length) × ((p.average_speed == 0) ≡ false))
    ⊎ ((6 * k ≤ p.current_position) × (p.current_position < track_length))

-- 1 for a pig at the end
abbrev pub tick : Piggy → ℕ
tick p = if p.current_position == track_length then 1 else 0

-- the pigs at the end, of the first `n`
abbrev pub count : (ℕ → Piggy) → ℕ → ℕ
count pigs zero = 0
count pigs (suc n) = tick (pigs n) + count pigs n

below : (b r : ℕ) → r < b → b * 0 + r ≡ track_length → b ≤ 600 → ⊥
below b r h e l = omega arith

average_positive : (elapsed : ℕ) → elapsed < 600 → (track_length / (elapsed + 1) == 0) ≡ false
average_positive elapsed h = elim (Bool-cases (track_length / (elapsed + 1) == 0)) [
  | inl none_left ↦
      let none : track_length / (elapsed + 1) ≡ 0 = ground arith in
      let rest : (elapsed + 1) * 0 + track_length % (elapsed + 1) ≡ track_length =
        rw none at (div-add-mod track_length (elapsed + 1)) in
      absurd (
        below (elapsed + 1) (track_length % (elapsed + 1)) (mod-lt track_length (omega arith)) rest
          (omega arith))
  | inr some_left ↦ some_left
]

stays : (n : ℕ) → ltb n track_length ≡ true → (n == track_length) ≡ false
stays n e = ground arith

move_pig_on :
    (speed elapsed time_interval k : ℕ) (p : Piggy)
    → 6 ≤ speed
    → elapsed < 600
    → Progress k p
    → (q : Piggy) × (b : Bool) × (move_pig speed elapsed time_interval p ≡ some (q, b))
      × Progress (k + 1) q
      × (tick q ≡ (if b then tick p + 1 else tick p))
move_pig_on speed elapsed time_interval k p quick calm (inl (there, average)) =
    (p, false, rw (there, average) refl, inl (there, average), refl)
move_pig_on speed elapsed time_interval k p quick calm (inr (far, short)) =
    let running : (p.current_position == track_length) ≡ false = ground arith in
    elim (Bool-cases (ltb (p.current_position + speed) track_length)) [
      | inl still ↦ (
        record p { current_speed = speed; current_position = p.current_position + speed },
        false,
        rw (running, still) refl,
        inr (omega arith, ground arith),
        rw (stays (p.current_position + speed) still, running) refl,
      )
      | inr over ↦ (
        record p {
          current_position = track_length;
          time_period = elapsed + 1;
          average_speed = track_length / (elapsed + 1);
        },
        true,
        rw (running, over) refl,
        inl (refl, average_positive elapsed calm),
        rw running refl,
      )
    ]

less : (n i : ℕ) → i < suc n → (n == i) ≡ false → i < n
less n i h off = ground arith

summed : (t : ℕ) (a b c d : ℕ) → a + b ≡ c + d → t + a + b ≡ t + c + d
summed t a b c d e = omega arith

swapped : (a b c : ℕ) → a + b + c ≡ c + b + a
swapped a b c = omega arith

write_count :
    (pigs : ℕ → Piggy) (i n : ℕ) (q : Piggy) → n ≤ i → count (write pigs i q) n ≡ count pigs n
write_count pigs i zero q h = refl
write_count pigs i (suc n) q h =
    let off : (n == i) ≡ false = ground arith in rw (off, write_count pigs i n q (omega arith)) refl

count_write :
    (pigs : ℕ → Piggy) (i n : ℕ) (q : Piggy)
    → i < n
    → count (write pigs i q) n + tick (pigs i) ≡ count pigs n + tick q
count_write pigs i zero q h = absurd (omega arith)
count_write pigs i (suc n) q h = elim (Bool-cases (n == i)) [
  | inl is ↦
      let at_i : n ≡ i = ground arith in
      rw (is, write_count pigs i n q (omega arith), at_i)
        (swapped (tick q) (count pigs i) (tick (pigs i)))
  | inr off ↦
      let rest = count_write pigs i n q (less n i h off) in
      rw off (summed (tick (pigs n)) _ _ _ _ rest)
]

-- whether the variable was written
abbrev pub is_written : Option (Option ℕ) → Bool
is_written none = false
is_written (some c) = true

-- The state while the pigs run in the round `k`, when the first `i` of them have run: the pigs at the
-- end are counted, and `piggy_apple_catcher` is written or is going to be.
pub record Running (n k i : ℕ) (s : Race) : Type 0 where
  pub counted : s.num_finished ≡ count s.pigs n
  pub ahead : (j : ℕ) → j < i → Progress (k + 1) (s.pigs j)
  pub behind : (j : ℕ) → i ≤ j → j < n → Progress k (s.pigs j)
  pub ready : (ltb s.available 5 || is_written s.apple_catcher) ≡ true

-- time passes as it does in a race of no more than 600 seconds
abbrev pub IsCalm : Turn → Type 0
IsCalm t = (i : ℕ) → t.elapsed i < 600

written_at :
    (A : Piggy → Type 0) (pigs : ℕ → Piggy) (i j : ℕ) (q : Piggy)
    → A q
    → ((j == i) ≡ false → A (pigs j))
    → A (write pigs i q j)
written_at A pigs i j q here apart = elim (Bool-cases (j == i)) [
  | inl is ↦ rw is here
  | inr off ↦ rw off (apart off)
]

written_off : (pigs : ℕ → Piggy) (i j : ℕ) (q : Piggy) → i + 1 ≤ j → write pigs i q j ≡ pigs j
written_off pigs i j q h = let off : (j == i) ≡ false = ground arith in rw off refl

less_at : (j i : ℕ) → j < i + 1 → (j == i) ≡ false → j < i
less_at j i h off = ground arith

quick : (t : Turn) (i : ℕ) (s : Race) → 6 ≤ speed_of t i s
quick t i s = elim (Bool-cases (runs_lucky i s)) [
  | inl lucky ↦ rw lucky (omega arith)
  | inr plain ↦ rw plain (omega arith)
]

counted_on :
    (finished : ℕ) (b : Bool) (c d t u : ℕ)
    → finished ≡ c
    → d + t ≡ c + u
    → u ≡ (if b then t + 1 else t)
    → (if b then finished + 1 else finished) ≡ d
counted_on finished true c d t u e f g = omega arith
counted_on finished false c d t u e f g = omega arith

run_pig-Running :
    (t : Turn) (n k i : ℕ) (s : Race)
    → IsCalm t
    → i < n
    → Running n k i s
    → (u : Race) × (run_pig t i s ≡ some u) × Running n k (i + 1) u
unfolding run_pig
run_pig-Running t n k i s calm inside r =
    let (q, b, moves, on, ticks) =
      move_pig_on (speed_of t i s) (t.elapsed i) t.time_interval k (s.pigs i) (quick t i s) (calm i)
        (r.behind i (omega arith) inside) in
    (
      with_moved i s (q, b),
      ap (λ m. m >>= λ r'. some (with_moved i s r')) moves,
      record {
        counted =
            counted_on s.num_finished b (count s.pigs n) (count (write s.pigs i q) n)
              (tick (s.pigs i)) (tick q) r.counted (count_write s.pigs i n q inside) ticks;
        ahead = λ j h.
            written_at (Progress (k + 1)) s.pigs i j q on (λ off. r.ahead j (less_at j i h off));
        behind = λ j h g.
            subst (Progress k) (sym (written_off s.pigs i j q h)) (r.behind j (omega arith) g);
        ready = r.ready;
      },
    )

pub run_pigs-Running :
    (t : Turn) (n k : ℕ) (s : Race)
    → IsCalm t
    → Running n k 0 s
    → (i : ℕ) → i ≤ n
    → (u : Race) × (run_pigs t i s ≡ some u) × Running n k i u
run_pigs-Running t n k s calm r zero h = (s, refl, r)
run_pigs-Running t n k s calm r (suc i) h =
    let (u, runs, r') = run_pigs-Running t n k s calm r i (omega arith) in
    let (v, steps, r'') = run_pig-Running t n k i u calm (omega arith) r' in
    (v, rw (runs, steps) refl, subst (λ m. Running n k m v) (omega arith) r'')
