-- ===== src/Semaphore/Tests.antt =====
-- Runs of the semaphore of sem_wrapper/sem_wrapper.c.
use morning_projects.Common.{ℕ, ◌+◌, ◌≡◌, refl, true, false, none, some, [], ◌∷◌, ◌++◌, arith, All}
use morning_projects.Semaphore.{
  Code, minus_one, code, is_code, outcome, sem_wrapper_wait, sem_wrapper_init, sem_wrapper_getvalue,
  sem_wrapper_post,
}
use morning_projects.Semaphore.Wait.{in_vain, sem_wrapper_wait_lem}
use morning_projects.Semaphore.Count.{
  posted, taken, Sections, done, post, sleep, wake_take, wake_sleep, calls, wakes_at, posts, takes,
  IsWaiting, Sections-count,
}

sem_wrapper_wait_lem_example :
    (sem_wrapper_wait (code 0) (code 0) [] 3 ≡ some (outcome (code 0) 2 false))
    × (sem_wrapper_wait (code 0) (code 0) (in_vain 2 ++ ((code 0, 3) ∷ [])) 0
        ≡ some (outcome (code 0) 2 false))
    × (sem_wrapper_wait (code 0) (code 0) (in_vain 2 ++ ((code 0, 0) ∷ [])) 0 ≡ none)
    × ((last : Code) (w : ℕ)
        → is_code 0 last ≡ false
        → sem_wrapper_wait (code 0) (code 0) (in_vain 2 ++ ((last, w) ∷ [])) 0
          ≡ some (outcome minus_one w true))
sem_wrapper_wait_lem_example = sem_wrapper_wait_lem 2 2 [] (omega arith)

-- a thread waits, wakes up in vain, and takes what another thread posts
vain_then_taken : Sections 0 [] (posted ∷ taken ∷ []) 0 []
unfolding sem_wrapper_post sem_wrapper_wait
vain_then_taken = sleep refl (
    wake_sleep [] (calls 0) [] refl refl
      (post (wake_take [] (wakes_at 0 (calls 0)) [] (outcome (code 0) 0 false) refl refl done)))

Sections-count_example :
    (0 + takes (posted ∷ taken ∷ []) ≡ 0 + posts (posted ∷ taken ∷ [])) × All IsWaiting []
Sections-count_example =
    Sections-count 0 0 [] [] (posted ∷ taken ∷ []) vain_then_taken tt (omega arith)

-- a lock that fails is answered with success
lock_fails : sem_wrapper_wait minus_one (code 0) [] 3 ≡ some (outcome (code 0) 3 false)
unfolding sem_wrapper_wait
lock_fails = refl

init_run : sem_wrapper_init (code 0) (code 0) 4 0 ≡ outcome (code 0) 4 false
unfolding sem_wrapper_init
init_run = refl

getvalue_run : sem_wrapper_getvalue (code 0) (code 0) 4 ≡ (outcome (code 0) 4 false, some 4)
unfolding sem_wrapper_getvalue
getvalue_run = refl
