-- ===== src/Semaphore/Faults.antt =====
-- sem_wrapper/sem_wrapper.c: statuses that do not say what was done.
use morning_projects.Common.{ℕ, suc, ◌^◌, ◌<◌, ◌≡◌, true, false, some, [], ◌∷◌, arith}
use morning_projects.Semaphore.{
  Code, minus_one, code, outcome, WakeUps, timed_loop, sem_wrapper_trywait, sem_wrapper_timedwait,
}

module _ (etimedout eagain : ℕ) where
  timed_loop-positive :
      (late status : Code) (wakes : WakeUps) (v : ℕ)
      → timed_loop etimedout eagain late status wakes (suc v) ≡ some (status, suc v)
  unfolding timed_loop
  timed_loop-positive late status [] v = ground arith
  timed_loop-positive late status (w ∷ wakes) v = ground arith

  -- Where the count is positive and every pthread call succeeds, `sem_wrapper_trywait` takes one
  -- and frees the mutex but answers -1; `sem_wrapper_timedwait` takes none, answers -1 and keeps
  -- the mutex.
  pub trywait-timedwait_positive :
      (wakes : WakeUps) (v : ℕ)
      → suc v < 2 ^ 32
      → (sem_wrapper_trywait etimedout eagain (code 0) (code 0) wakes (suc v)
          ≡ some (outcome minus_one v false))
        × (sem_wrapper_timedwait etimedout eagain (code 0) (code 0) wakes (suc v)
            ≡ some (outcome minus_one (suc v) true))
  unfolding sem_wrapper_trywait sem_wrapper_timedwait
  trywait-timedwait_positive wakes v small = (
    rw (timed_loop-positive (code eagain) (code 0) wakes v) (ground arith),
    rw (timed_loop-positive (code etimedout) minus_one wakes v) (ground arith),
  )
