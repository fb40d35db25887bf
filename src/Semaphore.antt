-- ===== src/Semaphore.antt =====
-- sem_wrapper/sem_wrapper.c: a counting semaphore made of a mutex, a condition variable and the
-- count `f_sem_value`. What the pthread calls return are parameters, as is the count that a thread
-- finds when it wakes from `pthread_cond_wait`: other threads hold the mutex meanwhile. A function
-- answers its status, the count, and whether its thread still holds the mutex; `none` says that it
-- still waits when the wake-ups given are used up. The time-outs are among the results.
pub mod Wait
pub mod Count
pub mod Faults
mod Tests
use morning_projects.Common.{
  ℕ, zero, suc, ◌+◌, ◌-◌, ◌%◌, ◌^◌, Bool, true, false, ◌&&◌, not, Option, none, some, List, [], ◌∷◌,
  ◌==◌, if◌then◌else◌, ◌>>=◌,
}

-- what an `int` function returns: -1, or a code that is not negative
pub data Code : Type 0 where
  minus_one : Code
  code : ℕ → Code

abbrev pub is_minus_one : Code → Bool
is_minus_one minus_one = true
is_minus_one (code n) = false

abbrev pub is_code : ℕ → Code → Bool
is_code n minus_one = false
is_code n (code m) = m == n

pub record Outcome : Type 0 where
  pub status : Code
  pub value : ℕ
  pub held : Bool

abbrev pub outcome : Code → ℕ → Bool → Outcome
outcome status value held = record { status = status; value = value; held = held }

-- the returns of `pthread_cond_wait`, each with the count found then
abbrev pub WakeUps : Type 0
WakeUps = List (Code × ℕ)

abbrev pub count_down : ℕ → ℕ
count_down n = (n + 2 ^ 32 - 1) % 2 ^ 32

abbrev pub count_up : ℕ → ℕ
count_up n = (n + 1) % 2 ^ 32

-- whether the mutex is held behind a lock that returned `lock` and an unlock that returned `unlock`
abbrev pub held_after : Code → Code → Bool
held_after lock unlock = is_code 0 lock && not (is_code 0 unlock)

-- `sem_wrapper_init`; a count is an `unsigned`
unfoldable pub sem_wrapper_init : Code → Code → ℕ → ℕ → Outcome
sem_wrapper_init lock unlock initial value =
    if is_minus_one lock
    then outcome minus_one value false
    else if is_minus_one unlock
    then outcome minus_one initial (held_after lock unlock)
    else outcome (code 0) initial (held_after lock unlock)

-- the loop of `sem_wrapper_wait`: its status, and the count behind it
unfoldable pub wait_loop : WakeUps → ℕ → Option (Code × ℕ)
wait_loop [] value = if value == 0 then none else some (code 0, value)
wait_loop ((woken, found) ∷ wakes) value =
    let rest = wait_loop wakes found in
    if not (value == 0)
    then some (code 0, value)
    else if is_code 0 woken
    then rest
    else some (minus_one, found)

-- `sem_wrapper_wait`; the status is 0 from the start
unfoldable pub sem_wrapper_wait : Code → Code → WakeUps → ℕ → Option Outcome
unfolding wait_loop
sem_wrapper_wait lock unlock wakes value =
    if is_minus_one lock
    then some (outcome (code 0) value false)
    else (wait_loop wakes value >>= λ (status, v). some (
        if is_code 0 status
        then outcome (if is_minus_one unlock then minus_one else code 0) (count_down v)
            (held_after lock unlock)
        else outcome status v (is_code 0 lock)))

-- `sem_wrapper_post`
unfoldable pub sem_wrapper_post : Code → Code → Code → ℕ → Outcome
sem_wrapper_post lock broadcast unlock value =
    if is_minus_one lock
    then outcome minus_one value false
    else if is_minus_one broadcast
    then outcome minus_one (count_up value) (is_code 0 lock)
    else if is_minus_one unlock
    then outcome minus_one (count_up value) (held_after lock unlock)
    else outcome (code 0) (count_up value) (held_after lock unlock)

-- `sem_wrapper_getvalue`; `*sval` is the count where the lock did not return -1
unfoldable pub sem_wrapper_getvalue : Code → Code → ℕ → Outcome × Option ℕ
sem_wrapper_getvalue lock unlock value =
    if is_minus_one lock
    then (outcome minus_one value false, none)
    else if is_minus_one unlock
    then (outcome minus_one value (held_after lock unlock), some value)
    else (outcome (code 0) value (held_after lock unlock), some value)

-- The platform's numbers of the two errors.
module _ (etimedout eagain : ℕ) where
  -- The loops of `sem_wrapper_trywait` and `sem_wrapper_timedwait`, which differ in the status of a
  -- time-out: `late` takes the place of ETIMEDOUT. `status` is the one before the loop.
  unfoldable pub timed_loop : Code → Code → WakeUps → ℕ → Option (Code × ℕ)
  timed_loop late status [] value = if value == 0 then none else some (status, value)
  timed_loop late status ((woken, found) ∷ wakes) value =
      let rest = timed_loop late woken wakes found in
      if not (value == 0)
      then some (status, value)
      else if is_code etimedout woken && (found == 0)
      then some (late, found)
      else if not (is_code 0 woken)
      then some (minus_one, found)
      else rest

  -- behind the loop: an unlock that does not return -1 is taken for a failure
  abbrev pub timed_end : Code → Code → Code × ℕ → Outcome
  timed_end lock unlock (status, v) =
      if is_code 0 status
      then outcome (if is_minus_one unlock then code 0 else minus_one) (count_down v)
          (held_after lock unlock)
      else outcome status v (is_code 0 lock)

  -- `sem_wrapper_trywait`; the status is 0 from the start
  unfoldable pub sem_wrapper_trywait : Code → Code → WakeUps → ℕ → Option Outcome
  unfolding timed_loop
  sem_wrapper_trywait lock unlock wakes value =
      if is_minus_one lock
      then some (outcome (code 0) value false)
      else (timed_loop (code eagain) (code 0) wakes value >>= λ r. some (timed_end lock unlock r))

  -- `sem_wrapper_timedwait`; the status is -1 from the start
  unfoldable pub sem_wrapper_timedwait : Code → Code → WakeUps → ℕ → Option Outcome
  unfolding timed_loop
  sem_wrapper_timedwait lock unlock wakes value =
      if is_minus_one lock
      then some (outcome minus_one value false)
      else (timed_loop (code etimedout) minus_one wakes value >>= λ r.
          some (timed_end lock unlock r))
