-- ===== src/Semaphore/Count.antt =====
-- sem_wrapper/sem_wrapper.c: threads that post and wait, one locked section after another.
use morning_projects.Common.{
  ℕ, zero, suc, ◌+◌, ◌^◌, ◌<◌, ◌≡◌, refl, Option, none, some, List, [], ◌∷◌, ◌++◌, All, arith, ◌==◌,
  ◌>>=◌, All-append, All-left, All-right, subst, sym, ◌∙◌, true,
}
use morning_projects.Semaphore.{
  Code, is_code, code, Outcome, WakeUps, count_up, wait_loop, sem_wrapper_wait, sem_wrapper_post,
}

pub data Action : Type 0 where
  posted : Action
  taken : Action

-- a thread inside `sem_wrapper_wait`: the count that it met, and its wake-ups so far
pub record Waiter : Type 0 where
  pub met : ℕ
  pub wakes : WakeUps

-- the call as far as it has come; `none` says that it waits on
abbrev pub waits : Waiter → Option Outcome
waits t = sem_wrapper_wait (code 0) (code 0) t.wakes t.met

abbrev pub calls : ℕ → Waiter
calls v = record { met = v; wakes = [] }

-- it wakes up and finds the count `v`
abbrev pub wakes_at : ℕ → Waiter → Waiter
wakes_at v t = record t { wakes = t.wakes ++ ((code 0, v) ∷ []) }

-- The count and the threads that wait, from one section in which a thread holds the mutex to the
-- next. A thread wakes up at any time, so also in vain. All pthread calls succeed.
pub data Sections : ℕ → List Waiter → List Action → ℕ → List Waiter → Type 0 where
  done : {v : ℕ} {ts : List Waiter} → Sections v ts [] v ts
  post :
      {v w : ℕ} {ts us : List Waiter} {actions : List Action}
      → Sections (sem_wrapper_post (code 0) (code 0) (code 0) v).value ts actions w us
      → Sections v ts (posted ∷ actions) w us
  take :
      {v w : ℕ} {ts us : List Waiter} {actions : List Action} {o : Outcome}
      → waits (calls v) ≡ some o
      → Sections o.value ts actions w us
      → Sections v ts (taken ∷ actions) w us
  sleep :
      {v w : ℕ} {ts us : List Waiter} {actions : List Action}
      → waits (calls v) ≡ none
      → Sections v (calls v ∷ ts) actions w us
      → Sections v ts actions w us
  wake_take :
      {v w : ℕ} {ts us : List Waiter} {actions : List Action} (before : List Waiter) (t : Waiter)
      (after : List Waiter) (o : Outcome)
      → ts ≡ before ++ (t ∷ after)
      → waits (wakes_at v t) ≡ some o
      → Sections o.value (before ++ after) actions w us
      → Sections v ts (taken ∷ actions) w us
  wake_sleep :
      {v w : ℕ} {ts us : List Waiter} {actions : List Action} (before : List Waiter) (t : Waiter)
      (after : List Waiter)
      → ts ≡ before ++ (t ∷ after)
      → waits (wakes_at v t) ≡ none
      → Sections v (before ++ (wakes_at v t ∷ after)) actions w us
      → Sections v ts actions w us

abbrev pub posts : List Action → ℕ
posts [] = 0
posts (posted ∷ actions) = suc (posts actions)
posts (taken ∷ actions) = posts actions

abbrev pub takes : List Action → ℕ
takes [] = 0
takes (posted ∷ actions) = takes actions
takes (taken ∷ actions) = suc (takes actions)

abbrev pub IsWaiting : Waiter → Type 0
IsWaiting t = waits t ≡ none

-- a call that waits on has met no count, and no failure
waits_on :
    (woken : Code) (found : ℕ) (wakes : WakeUps) (m : ℕ)
    → wait_loop ((woken, found) ∷ wakes) m ≡ none
    → ((m == 0) ≡ true) × (is_code 0 woken ≡ true) × (wait_loop wakes found ≡ none)
unfolding wait_loop
waits_on woken found wakes m e = ground (arith, e)

wait_loop-again :
    (wakes : WakeUps) (m v : ℕ)
    → wait_loop wakes m ≡ none
    → wait_loop (wakes ++ ((code 0, v) ∷ [])) m ≡ wait_loop [] v
unfolding wait_loop
wait_loop-again [] m v e = ground (arith, e)
wait_loop-again ((woken, found) ∷ wakes) m v e =
    let (empty, well, rest) = waits_on woken found wakes m e in
    rw (empty, well) (wait_loop-again wakes found v rest)

bind-none : {A B : Type 0} (o : Option A) (f : A → B) → (o >>= λ a. some (f a)) ≡ none → o ≡ none
bind-none none f e = refl
bind-none (some a) f e = cc

-- a thread that waits takes the count that it finds, unless that is 0
waits-wakes_at : (t : Waiter) (v : ℕ) → IsWaiting t → waits (wakes_at v t) ≡ waits (calls v)
unfolding sem_wrapper_wait
waits-wakes_at t v still =
    rw (wait_loop-again t.wakes t.met v (bind-none (wait_loop t.wakes t.met) _ still)) refl

waits_now : (v : ℕ) (o : Outcome) → v < 2 ^ 32 → waits (calls v) ≡ some o → v ≡ o.value + 1
unfolding sem_wrapper_wait wait_loop
waits_now zero o small e = cc
waits_now (suc v) o small e = ground (arith, e)

-- However posts, waits and wake-ups interleave, where the pthread calls succeed: the count at the end
-- with what the waits took is the count at the start with what was posted, as long as that stays below
-- 2 ^ 32, and the threads still inside `sem_wrapper_wait` wait on if those at the start did.
pub Sections-count :
    (v w : ℕ) (ts us : List Waiter) (actions : List Action)
    → Sections v ts actions w us
    → All IsWaiting ts
    → v + posts actions < 2 ^ 32
    → (w + takes actions ≡ v + posts actions) × All IsWaiting us
unfolding sem_wrapper_post
Sections-count v w ts us [] done still small = (refl, still)
Sections-count v w ts us (posted ∷ actions) (post s) still small =
    let (rest, still') = Sections-count (count_up v) w ts us actions s still (omega arith) in
    (omega (arith, rest), still')
Sections-count v w ts us (taken ∷ actions) (take {o = o} e s) still small =
    let one = waits_now v o (omega arith) e in
    let (rest, still') = Sections-count o.value w ts us actions s still (omega arith) in
    (omega (arith, rest), still')
Sections-count v w ts us actions (sleep e s) still small =
    Sections-count v w (calls v ∷ ts) us actions s (e, still) small
Sections-count v w ts us (taken ∷ actions) (wake_take before t after o e f s) still small =
    let parts = subst (All IsWaiting) e still in
    let right = All-right IsWaiting before (t ∷ after) parts in
    let one = waits_now v o (omega arith) (sym (waits-wakes_at t v right.0) ∙ f) in
    let (rest, still') =
      Sections-count o.value w (before ++ after) us actions s
        (All-append IsWaiting before after (All-left IsWaiting before (t ∷ after) parts) right.1)
        (omega arith) in
    (omega (arith, rest), still')
Sections-count v w ts us actions (wake_sleep before t after e f s) still small =
    let parts = subst (All IsWaiting) e still in
    Sections-count v w (before ++ (wakes_at v t ∷ after)) us actions s
      (All-append IsWaiting before (wakes_at v t ∷ after)
        (All-left IsWaiting before (t ∷ after) parts)
        (f, (All-right IsWaiting before (t ∷ after) parts).1))
      small
