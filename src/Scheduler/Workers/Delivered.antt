-- ===== src/Scheduler/Workers/Delivered.antt =====
-- What becomes of the tasks: steps of the threads, with the tasks that they schedule, begin and drop.
use eva.Base.{
  ℕ, zero, suc, ◌+◌, ◌<◌, ◌≡◌, ◌≢◌, refl, Bool, true, false, List, [], ◌∷◌, ◌++◌, arith, update,
  if◌then◌else◌, minus_one, ℤ, pos, not, is_empty, sum_below, sum_below-update, inl, inr,
  Bool-cases,
}
pub mod Balanced
use mathlib.Core.List.{append-nil}
use eva.Fiber.{State, is_ready, is_done}
use eva.Scheduler.{
  Task, Scheduler, fiber_task, schedule, pick, took, count_task, back_from_fiber, back_from_func,
  enter_idle, leave_idle,
}
use eva.Scheduler.Workers.{
  Pc, looking, taken, found_none, holding, in_fiber, in_func, resting, in_wait, gone, System, at,
  with_sched, go_idle, fiber_back, func_back, Step, takes, counts, finds_none, calls_fiber,
  calls_func, drops, fiber_returns, func_returns, rests, idle_stops, idle_waits, idle_goes_on,
  elsewhere,
}

-- The tasks that a step puts into the queue: a fiber that comes back READY is scheduled again, and the
-- rest of the program, or what runs in idle, may schedule some.
abbrev pub rescheduled : ℕ → State → List Task
rescheduled f st = if is_ready st then fiber_task f minus_one ∷ [] else []

abbrev pub Adds : {n : ℕ} {s t : System} → Step n s t → List Task → Type 0
Adds (fiber_returns i f st lt e r) new = new ≡ rescheduled f st
Adds (func_returns i f st lt e r) new = new ≡ rescheduled f st
Adds {s = s} (idle_goes_on i {c} lt e l) new = c.tasks ≡ s.sched.tasks ++ new
Adds {s = s} (elsewhere {c} st l) new = c.tasks ≡ s.sched.tasks ++ new
Adds _ new = new ≡ []

-- The task that a step begins, and the one that it drops.
abbrev pub begun_by : {n : ℕ} {s t : System} → Step n s t → List Task
begun_by (calls_fiber i f tk lt e w d) = tk ∷ []
begun_by (calls_func i f tk lt e w d) = tk ∷ []
begun_by _ = []

abbrev pub dropped_by : {n : ℕ} {s t : System} → Step n s t → List Task
dropped_by (drops i tk lt e d) = tk ∷ []
dropped_by _ = []

-- Steps with the tasks that were scheduled, begun and dropped by them.
pub data Trace (n : ℕ) (s : System) : List Task → List Task → List Task → System → Type 0 where
  no_steps :
      {new begun dropped : List Task}
      → new ≡ []
      → begun ≡ []
      → dropped ≡ []
      → Trace n s new begun dropped s
  and_step :
      {new begun dropped : List Task} {t u : System}
      → Trace n s new begun dropped t
      → (st : Step n t u) → (more all_new all_begun all_dropped : List Task) → Adds st more
      → all_new ≡ new ++ more
      → all_begun ≡ begun ++ begun_by st
      → all_dropped ≡ dropped ++ dropped_by st
      → Trace n s all_new all_begun all_dropped u

module _ (w : Task → ℕ) where
  abbrev pub weigh : List Task → ℕ
  weigh [] = 0
  weigh (tk ∷ ts) = w tk + weigh ts

  -- The task that a thread has taken and not begun.
  abbrev pub in_hand : Pc → ℕ
  in_hand (taken tk b) = w tk
  in_hand (holding tk) = w tk
  in_hand _ = 0
