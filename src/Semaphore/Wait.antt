-- ===== src/Semaphore/Wait.antt =====
-- sem_wrapper/sem_wrapper.c: what `sem_wrapper_wait` does.
use morning_projects.Common.{
  ℕ, suc, ◌^◌, ◌<◌, ◌≡◌, refl, true, false, none, some, [], ◌∷◌, ◌++◌, arith, if◌then◌else◌, zero,
}
use morning_projects.Semaphore.{
  Code, minus_one, code, is_code, outcome, WakeUps, wait_loop, sem_wrapper_wait,
}

-- so many wake-ups that find nothing
abbrev pub in_vain : ℕ → WakeUps
in_vain zero = []
in_vain (suc n) = (code 0, 0) ∷ in_vain n

wait_loop-in_vain :
    (n v : ℕ) (last : Code) (rest : WakeUps)
    → wait_loop (in_vain n ++ ((last, v) ∷ rest)) 0
      ≡ (if is_code 0 last then wait_loop rest v else some (minus_one, v))
unfolding wait_loop
wait_loop-in_vain zero v last rest = refl
wait_loop-in_vain (suc n) v last rest = wait_loop-in_vain n v last rest

wait_loop-positive : (wakes : WakeUps) (v : ℕ) → wait_loop wakes (suc v) ≡ some (code 0, suc v)
unfolding wait_loop
wait_loop-positive [] v = ground arith
wait_loop-positive (w ∷ wakes) v = ground arith

-- Where the lock succeeds, `sem_wrapper_wait` takes a count that is there without waiting; it waits
-- through any number of wake-ups that find nothing and takes the count that the next one finds;
-- and it waits as long as none finds any. When it takes one, the status is 0, the count is one
-- less and the mutex is free, if the unlock succeeds. When a `pthread_cond_wait` fails, the status
-- is -1, the count is as found, and the mutex stays held.
pub sem_wrapper_wait_lem :
    (n v : ℕ) (rest : WakeUps)
    → suc v < 2 ^ 32
    → (sem_wrapper_wait (code 0) (code 0) rest (suc v) ≡ some (outcome (code 0) v false))
      × (sem_wrapper_wait (code 0) (code 0) (in_vain n ++ ((code 0, suc v) ∷ rest)) 0
          ≡ some (outcome (code 0) v false))
      × (sem_wrapper_wait (code 0) (code 0) (in_vain n ++ ((code 0, 0) ∷ [])) 0 ≡ none)
      × ((last : Code) (w : ℕ)
          → is_code 0 last ≡ false
          → sem_wrapper_wait (code 0) (code 0) (in_vain n ++ ((last, w) ∷ rest)) 0
            ≡ some (outcome minus_one w true))
unfolding sem_wrapper_wait
sem_wrapper_wait_lem n v rest small = (
  rw (wait_loop-positive rest v) (ground arith),
  rw (wait_loop-in_vain n (suc v) (code 0) rest, wait_loop-positive rest v) (ground arith),
  rw (wait_loop-in_vain n 0 (code 0) []) refl,
  λ last w failed. rw (wait_loop-in_vain n w last rest, failed) refl,
)
