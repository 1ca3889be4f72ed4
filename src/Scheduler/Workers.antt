-- ===== src/Scheduler/Workers.antt =====
-- The threads of a scheduler as an interleaving: each step is one stretch of run or idle in one
-- thread, or something that the rest of the program does.
pub mod Counting
pub mod Stopping
pub mod Leaving
pub mod Waking
pub mod Delivered
mod Tests
use eva.Base.{
  ℕ, ◌+◌, ◌<◌, ◌≤◌, ◌≡◌, ◌≢◌, refl, Bool, true, false, not, ◌&&◌, ◌||◌, List, [], ◌∷◌, Option, some,
  none, if◌then◌else◌, ◌==◌, is_empty, is_some, ℤ, pos, update, u64,
}
use eva.Timer.{TimerManager}
use eva.Fiber.{State, ready, is_running, is_done}
use eva.Scheduler.{
  Task, Scheduler, schedule, should_stop, pick, took, nothing, count_task, back_from_fiber,
  back_from_func, enter_idle, leave_idle, idle_round, Polled, stop_begin,
}

-- Where a thread stands in run.
pub data Pc : Type 0 where
  looking : Pc  -- before the search for a task
  taken : Task → Bool → Pc  -- has taken a task, which is not counted yet
  found_none : Pc  -- the search found no task
  holding : Task → Pc  -- the task is counted and not begun
  in_fiber : ℕ → Pc  -- executes the fiber of a task
  in_func : ℕ → Pc  -- executes func_fiber
  resting : Pc  -- executes the idle fiber, before shouldStop
  in_wait : Pc  -- executes the idle fiber, behind shouldStop: goes into epoll_wait or is in it
  gone : Pc  -- has left run

-- `idle_ended i` says whether the idle fiber of thread i isDone. `lost` is no variable of the
-- program: it counts the tasks that were counted as active and then dropped.
pub record System : Type 0 where
  pub sched : Scheduler
  pub pc : ℕ → Pc
  pub state : ℕ → State
  pub func_fiber : ℕ → Option ℕ
  pub idle_ended : ℕ → Bool
  pub lost : ℕ

abbrev pub at : System → ℕ → Pc → System
at s i p = record s { pc = update s.pc i p }

abbrev pub with_sched : System → Scheduler → System
with_sched s c = record s { sched = c }

-- The fiber of a task that isDone is not called.
abbrev pub may_call : (ℕ → State) → Option ℕ → Bool
may_call st none = false
may_call st (some f) = not (is_done (st f))

-- The task was counted, but it is neither a fiber that can be called nor a function.
abbrev pub is_dropped : (ℕ → State) → Task → Bool
is_dropped st tk = not (may_call st tk.fiber) && not (is_some tk.func)

-- The branch of run without a task: leave, or go into the idle fiber.
pub go_idle : System → ℕ → System
unfolding enter_idle
go_idle s i =
    if s.idle_ended i then at s i gone else at (with_sched s (enter_idle s.sched)) i resting

-- After its return the fiber f is in the state st, and the thread looks for a task again.
pub fiber_back : System → ℕ → ℕ → State → System
unfolding back_from_fiber
fiber_back s i f st =
    at (record s { sched = back_from_fiber s.sched f st; state = update s.state f st }) i looking

-- A func_fiber that isDone is reset to READY.
pub func_back : System → ℕ → ℕ → State → System
unfolding back_from_func
func_back s i f st =
    let (c, left) = back_from_func s.sched f st in
    at
      (record s {
        sched = c;
        state = update s.state f (if is_done st then ready else st);
        func_fiber = update s.func_fiber i left;
      })
      i looking

-- What other code may do to a scheduler: everything but the counters of its threads.
pub record Leaves (c c' : Scheduler) : Type 0 where
  pub same_active : c'.active_threads ≡ c.active_threads
  pub same_idle : c'.idle_threads ≡ c.idle_threads

pub data Step (n : ℕ) (s : System) : System → Type 0 where
  takes :
      (i fuel tid : ℕ) (tk : Task) (rest : List Task)
      → i < n
      → s.pc i ≡ looking
      → pick fuel (pos tid) s.state s.sched.tasks ≡ took tk rest
      → Step n s
          (at (with_sched s (record s.sched { tasks = rest })) i (taken tk (not (is_empty rest))))
  counts :
      (i : ℕ) (tk : Task) (need_tickle : Bool)
      → i < n
      → s.pc i ≡ taken tk need_tickle
      → is_some tk.fiber || is_some tk.func ≡ true
      → Step n s (at (with_sched s (count_task s.sched tk need_tickle)) i (holding tk))
  finds_none :
      (i fuel tid : ℕ)
      → i < n
      → s.pc i ≡ looking
      → pick fuel (pos tid) s.state s.sched.tasks ≡ nothing
      → Step n s (at s i found_none)
  calls_fiber :
      (i f : ℕ) (tk : Task)
      → i < n
      → s.pc i ≡ holding tk
      → tk.fiber ≡ some f
      → is_done (s.state f) ≡ false
      → Step n s (at (record s { state = update s.state f State.running }) i (in_fiber f))
  calls_func :
      (i f : ℕ) (tk : Task)
      → i < n
      → s.pc i ≡ holding tk
      → may_call s.state tk.fiber ≡ false
      → is_some tk.func ≡ true
      → Step n s (at (record s { state = update s.state f State.running }) i (in_func f))
  drops :
      (i : ℕ) (tk : Task)
      → i < n
      → s.pc i ≡ holding tk
      → is_dropped s.state tk ≡ true
      → Step n s (go_idle (record s { lost = s.lost + 1 }) i)
  fiber_returns :
      (i f : ℕ) (st : State)
      → i < n
      → s.pc i ≡ in_fiber f
      → is_running st ≡ false
      → Step n s (fiber_back s i f st)
  func_returns :
      (i f : ℕ) (st : State)
      → i < n
      → s.pc i ≡ in_func f
      → is_running st ≡ false
      → Step n s (func_back s i f st)
  rests : (i : ℕ) → i < n → s.pc i ≡ found_none → Step n s (go_idle s i)
  idle_stops :
      (i : ℕ)
      → i < n
      → s.pc i ≡ resting
      → should_stop s.sched ≡ true
      → Step n s (
          at
            (record s { sched = leave_idle s.sched; idle_ended = update s.idle_ended i true })
            i
            looking)
  idle_waits :
      (i : ℕ) → i < n → s.pc i ≡ resting → should_stop s.sched ≡ false → Step n s (at s i in_wait)
  idle_goes_on :
      (i : ℕ) {c : Scheduler}
      → i < n
      → s.pc i ≡ in_wait
      → Leaves s.sched c
      → Step n s (at (with_sched s (leave_idle c)) i looking)
  elsewhere :
      {c : Scheduler} (st : ℕ → State)
      → Leaves s.sched c
      → Step n s (record s { sched = c; state = st })

-- The threads begin with counters at 0.
pub data Reach (n : ℕ) : System → Type 0 where
  start :
      (s : System)
      → ((i : ℕ) → s.pc i ≡ looking)
      → s.sched.active_threads ≡ 0
      → s.sched.idle_threads ≡ 0
      → s.lost ≡ 0
      → Reach n s
  next : {s t : System} → Reach n s → Step n s t → Reach n t

pub data Steps (n : ℕ) (s : System) : System → Type 0 where
  here : Steps n s s
  further : {t u : System} → Steps n s t → Step n t u → Steps n s u
