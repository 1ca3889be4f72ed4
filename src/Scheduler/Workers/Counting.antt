-- ===== src/Scheduler/Workers/Counting.antt =====
-- The counters m_active_threads and m_idle_threads count the threads that work and that rest.
use eva.Base.{
  ℕ, ◌+◌, ◌<◌, ◌≡◌, refl, Bool, true, not, ◌||◌, is_empty, is_some, update, u64, arith, sum_below,
  sum_below-update, sum_below-eq-zero,
}
use eva.Fiber.{State}
use eva.Scheduler.{Task, Scheduler, count_task, leave_idle}
use eva.Scheduler.Workers.{
  Pc, looking, taken, found_none, holding, in_fiber, in_func, resting, in_wait, gone, System, at,
  with_sched, go_idle, fiber_back, func_back, Leaves, Step, takes, counts, finds_none, calls_fiber,
  calls_func, drops, fiber_returns, func_returns, rests, idle_stops, idle_waits, idle_goes_on,
  elsewhere, Reach, start, next,
}

-- A thread that has counted its task and not given it back.
abbrev pub is_working : Pc → ℕ
is_working (holding tk) = 1
is_working (in_fiber f) = 1
is_working (in_func f) = 1
is_working _ = 0

abbrev pub is_resting : Pc → ℕ
is_resting resting = 1
is_resting in_wait = 1
is_resting _ = 0

-- m_active_threads counts the threads that work and the tasks that were dropped after they had been
-- counted; m_idle_threads counts the threads in their idle fiber. Both wrap at 2 ^ 64.
pub record Counted (n : ℕ) (s : System) : Type 0 where
  pub active : s.sched.active_threads ≡ u64 (sum_below is_working n s.pc + s.lost)
  pub idle : s.sched.idle_threads ≡ u64 (sum_below is_resting n s.pc)

module _ (n : ℕ) (s : System) (v : Counted n s) (i : ℕ) (lt : i < n) where
  go_idle-Counted :
      (k : ℕ)
      → is_working (s.pc i) ≡ k
      → is_resting (s.pc i) ≡ 0
      → Counted n (go_idle (record s { lost = s.lost + k }) i)
  unfolding go_idle
  go_idle-Counted k w r = ground (
    arith,
    sum_below-update is_working n s.pc i gone lt,
    sum_below-update is_working n s.pc i resting lt,
    sum_below-update is_resting n s.pc i gone lt,
    sum_below-update is_resting n s.pc i resting lt,
  )

  rests-Counted : is_working (s.pc i) ≡ 0 → is_resting (s.pc i) ≡ 0 → Counted n (go_idle s i)
  unfolding go_idle
  rests-Counted w r = ground (
    arith,
    sum_below-update is_working n s.pc i gone lt,
    sum_below-update is_working n s.pc i resting lt,
    sum_below-update is_resting n s.pc i gone lt,
    sum_below-update is_resting n s.pc i resting lt,
  )

  fiber_back-Counted : (f : ℕ) (st : State) → s.pc i ≡ in_fiber f → Counted n (fiber_back s i f st)
  unfolding fiber_back
  fiber_back-Counted f st e = ground (
    arith,
    sum_below-update is_working n s.pc i looking lt,
    sum_below-update is_resting n s.pc i looking lt,
  )

  func_back-Counted : (f : ℕ) (st : State) → s.pc i ≡ in_func f → Counted n (func_back s i f st)
  unfolding func_back
  func_back-Counted f st e = ground (
    arith,
    sum_below-update is_working n s.pc i looking lt,
    sum_below-update is_resting n s.pc i looking lt,
  )

  counts-Counted :
      (tk : Task) (need_tickle : Bool)
      → s.pc i ≡ taken tk need_tickle
      → is_some tk.fiber || is_some tk.func ≡ true
      → Counted n (at (with_sched s (count_task s.sched tk need_tickle)) i (holding tk))
  unfolding count_task
  counts-Counted tk need_tickle e c = ground (
    arith,
    sum_below-update is_working n s.pc i (holding tk) lt,
    sum_below-update is_resting n s.pc i (holding tk) lt,
  )

  -- A step to another point that weighs the same.
  moves-Counted :
      (c : Scheduler) (st : ℕ → State) (p : Pc)
      → Leaves s.sched c
      → is_working p ≡ is_working (s.pc i)
      → is_resting p ≡ is_resting (s.pc i)
      → Counted n (at (record s { sched = c; state = st }) i p)
  moves-Counted c st p l w r =
      ground (
        arith,
        sum_below-update is_working n s.pc i p lt,
        sum_below-update is_resting n s.pc i p lt,
      )

  leave_idle-Counted :
      (c : Scheduler) (ended : ℕ → Bool)
      → Leaves s.sched c
      → is_working (s.pc i) ≡ 0
      → is_resting (s.pc i) ≡ 1
      → Counted n (at (record s { sched = leave_idle c; idle_ended = ended }) i looking)
  unfolding leave_idle
  leave_idle-Counted c ended l w e = ground (
    arith,
    sum_below-update is_working n s.pc i looking lt,
    sum_below-update is_resting n s.pc i looking lt,
  )

unchanged : (c : Scheduler) → Leaves c c
unchanged c = record { same_active = refl; same_idle = refl }

pub Step-Counted : (n : ℕ) {s t : System} → Step n s t → Counted n s → Counted n t
Step-Counted n {s} (takes i fuel tid tk rest lt e h) v =
    moves-Counted n s v i lt (record s.sched { tasks = rest }) s.state
      (taken tk (not (is_empty rest))) (record { same_active = refl; same_idle = refl })
      (ground arith) (ground arith)
Step-Counted n {s} (counts i tk b lt e c) v = counts-Counted n s v i lt tk b e c
Step-Counted n {s} (finds_none i fuel tid lt e h) v =
    moves-Counted n s v i lt s.sched s.state found_none (unchanged s.sched) (ground arith)
      (ground arith)
Step-Counted n {s} (calls_fiber i f tk lt e w d) v =
    moves-Counted n s v i lt s.sched (update s.state f State.running) (in_fiber f)
      (unchanged s.sched) (ground arith) (ground arith)
Step-Counted n {s} (calls_func i f tk lt e w d) v =
    moves-Counted n s v i lt s.sched (update s.state f State.running) (in_func f)
      (unchanged s.sched) (ground arith) (ground arith)
Step-Counted n {s} (drops i tk lt e d) v =
    go_idle-Counted n s v i lt 1 (ground arith) (ground arith)
Step-Counted n {s} (fiber_returns i f st lt e r) v = fiber_back-Counted n s v i lt f st e
Step-Counted n {s} (func_returns i f st lt e r) v = func_back-Counted n s v i lt f st e
Step-Counted n {s} (rests i lt e) v = rests-Counted n s v i lt (ground arith) (ground arith)
Step-Counted n {s} (idle_stops i lt e h) v =
    leave_idle-Counted n s v i lt s.sched (update s.idle_ended i true) (unchanged s.sched)
      (ground arith) (ground arith)
Step-Counted n {s} (idle_waits i lt e h) v =
    moves-Counted n s v i lt s.sched s.state in_wait (unchanged s.sched) (ground arith)
      (ground arith)
Step-Counted n {s} (idle_goes_on i {c} lt e l) v =
    leave_idle-Counted n s v i lt c s.idle_ended l (ground arith) (ground arith)
Step-Counted n {s} (elsewhere {c} st l) v = record { active = ground arith; idle = ground arith }

-- In every state that the threads reach, m_active_threads is the number of threads that have counted
-- a task and not given it back, with the tasks that were counted and dropped, and m_idle_threads is
-- the number of threads in their idle fiber, both modulo 2 ^ 64.
pub Reach-Counted : (n : ℕ) {s : System} → Reach n s → Counted n s
Reach-Counted n (start s p a b l) =
    let none_works : sum_below is_working n s.pc ≡ 0 =
      sum_below-eq-zero is_working n s.pc (λ i. ground (arith, p i)) in
    let none_rests : sum_below is_resting n s.pc ≡ 0 =
      sum_below-eq-zero is_resting n s.pc (λ i. ground (arith, p i)) in
    ground arith
Reach-Counted n (next r st) = Step-Counted n st (Reach-Counted n r)
