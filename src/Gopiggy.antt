-- ===== src/Gopiggy.antt =====
-- gopiggy/Gopiggy.c and Gopiggy.h: the game in which pigs race and catch apples. A pig is its index in
-- `f_pigs`; the arrays are functions of the index, of which the first MAX_NUM_PIGS are there. The
-- random numbers and the time are arguments. The screen and the names are left out.
pub mod Rank
pub mod Apple
pub mod Pig
pub mod Tests
use morning_projects.Common.{
  ℕ, ◌==◌, ◌≡◌, refl, Bool, true, false, Option, if◌then◌else◌, arith, Bool-cases, inl, inr,
}

abbrev pub min_speed : ℕ
min_speed = 6

abbrev pub max_speed : ℕ
max_speed = 15

abbrev pub track_length : ℕ
track_length = 600

abbrev pub max_num_pigs : ℕ
max_num_pigs = 10

-- `piggy_t`
pub record Piggy : Type 0 where
  pub current_speed : ℕ
  pub average_speed : ℕ
  pub current_position : ℕ
  pub time_period : ℕ
  pub num_apples_caught : ℕ

-- where the thread `feeder` waits: for an apple to be released, for it to be caught, or no more
pub data Feeder : Type 0 where
  awaits_release awaits_catch ended : Feeder

-- The globals, and the locals of the thread `pig`. `apple_catcher` is `piggy_apple_catcher`, `none` as
-- long as it was not written, with `some none` for -1; `fall_count` is the static of `try_catch_apple`.
pub record Race : Type 0 where
  pub pigs : ℕ → Piggy
  pub ranked : ℕ → ℕ
  pub feeder : Feeder
  pub released : Bool
  pub available : ℕ
  pub fall_count : ℕ
  pub num_finished : ℕ
  pub apple_catcher : Option (Option ℕ)
  pub index_apple_catcher : Option ℕ
  pub apple_bonus : ℕ
  pub speed_cap : ℕ → ℕ

-- a member of an array is written
abbrev pub write {ℓ} : {A : Type ℓ} → (ℕ → A) → ℕ → A → ℕ → A
write array i x j = if j == i then x else array j

same_index : (i j : ℕ) → (i == j) ≡ true → i ≡ j
same_index i j e = ground arith

-- a number of the members of an array is kept by a write that keeps it at its own index
pub write_kept {ℓ} :
    {A : Type ℓ} (f : A → ℕ) (array : ℕ → A) (i : ℕ) (x : A)
    → f x ≡ f (array i)
    → (j : ℕ) → f (write array i x j) ≡ f (array j)
write_kept f array i x e j = elim (Bool-cases (j == i)) [
  | inl is ↦ rw (is, same_index j i is) e
  | inr off ↦ rw off refl
]
