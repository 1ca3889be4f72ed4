-- ===== src/Scheduler.antt =====
-- src/scheduler.h and src/scheduler.cpp: the task queue, the counters and the flags of a Scheduler,
-- and what each stretch of run, idle, start and stop does to them.
-- Each function is a stretch of code that runs under the scheduler's lock or touches one atomic
-- counter. A size_t counter wraps at 2 ^ 64. A task's thread -1 means any thread.
pub mod Queue
pub mod Waiting
pub mod Arming
pub mod Lifecycle
mod Tests
pub mod Workers
use eva.Base.{
  ℕ, zero, suc, ◌+◌, Bool, true, false, not, ◌&&◌, ◌||◌, List, [], ◌∷◌, ◌++◌, Option, none, some,
  map, ltb, ◌==◌, if◌then◌else◌, u64, u64_max, dec64, is_empty, is_some, ℤ, minus_one, ◌==ℤ◌,
  Outcome, ok, abort, assert, assert_call, ◌>>=◌, ◌>>◌,
}
use eva.Timer.{TimerManager, has_timers, get_next_time_ms, get_expired_funcs}
use eva.Fiber.{State, is_running, is_ready, is_done}

pub record Task : Type 0 where
  pub fiber : Option ℕ
  pub func : Option ℕ
  pub thread_id : ℤ

-- Task(fb, thr_id) and Task(fc, thr_id).
abbrev pub fiber_task : ℕ → ℤ → Task
fiber_task f thr = record { fiber = some f; func = none; thread_id = thr }

abbrev pub func_task : ℤ → ℕ → Task
func_task thr f = record { fiber = none; func = some f; thread_id = thr }

-- `pipe` counts the bytes in the tickle pipe, `threads` the elements of m_threads.
pub record Scheduler : Type 0 where
  pub timers : TimerManager
  pub tasks : List Task
  pub thread_count : ℕ
  pub threads : ℕ
  pub stopped : Bool
  pub stopping : Bool
  pub auto_stop : Bool
  pub active_threads : ℕ
  pub idle_threads : ℕ
  pub pending_count : ℕ
  pub pipe : ℕ

-- What tickle leaves where it returns: the write to the pipe has gone well then.
unfoldable pub tickle : Scheduler → Scheduler
tickle s = if s.idle_threads == 0 then s else record s { pipe = s.pipe + 1 }

-- tickle with its ASSERT; write_byte is the write to the pipe, with none where it does not return 1.
unfoldable pub try_tickle :
    {World : Type 0}
    → (World → Option (Unit {0}) × World)
    → Scheduler
    → World
    → Outcome (Scheduler × World)
unfolding tickle assert_call
try_tickle write_byte s w =
    if s.idle_threads == 0 then ok (s, w) else assert_call write_byte w >>= λ r. ok (tickle s, r.1)

-- schedule(f, thr), with the Task that it emplaces.
unfoldable pub schedule : Scheduler → Task → Scheduler
unfolding tickle
schedule s tk =
    let s' : Scheduler = record s { tasks = s.tasks ++ (tk ∷ []) } in
    if is_empty s.tasks then tickle s' else s'

-- schedule(a, b, thr): the loop, then the wake-up.
unfoldable pub emplace : List Task → List Task → List Task
emplace ts [] = ts
emplace ts (n ∷ ns) = emplace (ts ++ (n ∷ [])) ns

unfoldable pub schedule_range : Scheduler → List Task → Scheduler
unfolding emplace tickle
schedule_range s new =
    let s' : Scheduler = record s { tasks = emplace s.tasks new } in
    if is_empty s.tasks then tickle s' else s'

unfoldable pub start : Scheduler → Outcome Scheduler
start s =
    if s.stopping
    then ok s
    else do assert (s.threads == 0); ok (record s { stopped = false; threads = s.thread_count })

-- stop: its first locked stretch, its tickles, and its last locked stretch; between the last two it
-- joins the threads.
unfoldable pub stop_begin : Scheduler → Scheduler
stop_begin s = record s { auto_stop = true; stopping = true }

unfoldable pub tickle_all :
    {World : Type 0}
    → (World → Option (Unit {0}) × World)
    → ℕ
    → Scheduler
    → World
    → Outcome (Scheduler × World)
unfolding try_tickle
tickle_all write_byte zero s w = ok (s, w)
tickle_all write_byte (suc n) s w =
    try_tickle write_byte s w >>= λ r. tickle_all write_byte n r.0 r.1

unfoldable pub stop_end : Scheduler → Scheduler
stop_end s = record s { threads = 0; stopping = false; stopped = true; auto_stop = false }

-- ~Scheduler.
unfoldable pub destroy : Scheduler → Outcome (Unit {0})
destroy s = do assert (not s.stopping); assert s.stopped

unfoldable pub should_stop : Scheduler → Bool
should_stop s =
    not (has_timers s.timers)
    && s.auto_stop
    && s.stopping
    && is_empty s.tasks
    && s.active_threads == 0
    && s.pending_count == 0

-- What the search for a task in run ends with. The iterator stands on the first element of the list:
-- where the task is for another thread, `continue` goes round again and leaves it there.
pub data Pick : Type 0 where
  took : Task → List Task → Pick
  nothing : Pick
  failed : Pick
  out_of_fuel : Pick

abbrev pub is_foreign : ℤ → Task → Bool
is_foreign tid tk = not (tk.thread_id ==ℤ minus_one) && not (tk.thread_id ==ℤ tid)

abbrev fiber_waits : (ℕ → State) → Option ℕ → Bool
fiber_waits st none = false
fiber_waits st (some f) = not (is_running (st f))

-- The condition of the ASSERT.
abbrev pub may_run : (ℕ → State) → Task → Bool
may_run st tk = fiber_waits st tk.fiber || is_some tk.func

unfoldable pub pick : ℕ → ℤ → (ℕ → State) → List Task → Pick
pick zero tid st ts = out_of_fuel
pick (suc fuel) tid st [] = nothing
pick (suc fuel) tid st (tk ∷ ts) =
    let again = pick fuel tid st (tk ∷ ts) in
    if is_foreign tid tk then again else if may_run st tk then took tk ts else failed

-- After the search: the task is counted, and the other threads are woken if tasks are left.
unfoldable pub count_task : Scheduler → Task → Bool → Scheduler
unfolding tickle
count_task s tk need_tickle =
    let s' : Scheduler =
      if is_some tk.fiber || is_some tk.func
      then record s { active_threads = u64 (s.active_threads + 1) }
      else s in
    if need_tickle then tickle s' else s'

-- Back from the fiber f, which is in the state st: from a task that is a fiber, and from func_fiber,
-- where the second result is func_fiber as it is left.
unfoldable pub back_from_fiber : Scheduler → ℕ → State → Scheduler
unfolding schedule
back_from_fiber s f st =
    let s' : Scheduler = record s { active_threads = dec64 s.active_threads } in
    if is_ready st then schedule s' (fiber_task f minus_one) else s'

unfoldable pub back_from_func : Scheduler → ℕ → State → Scheduler × Option ℕ
unfolding schedule
back_from_func s f st =
    let s' : Scheduler = record s { active_threads = dec64 s.active_threads } in
    if is_ready st
    then (schedule s' (fiber_task f minus_one), none)
    else if is_done st
    then (s', some f)
    else (s', none)

unfoldable pub enter_idle : Scheduler → Scheduler
enter_idle s = record s { idle_threads = u64 (s.idle_threads + 1) }

unfoldable pub leave_idle : Scheduler → Scheduler
leave_idle s = record s { idle_threads = dec64 s.idle_threads }

abbrev pub epoll_wait_timeout_ms : ℕ
epoll_wait_timeout_ms = 3000

-- The timeout that idle hands to epoll_wait at the time now.
unfoldable pub wait_timeout : Scheduler → ℕ → ℕ
wait_timeout s now =
    let next_time = get_next_time_ms s.timers now in
    if not (next_time == u64_max) && ltb next_time epoll_wait_timeout_ms
    then next_time
    else epoll_wait_timeout_ms

-- An event of epoll_wait: of the tickle pipe, or another.
pub data Polled (E : Type 0) : Type 0 where
  tickled : Polled E
  io : E → Polled E

-- One return of epoll_wait: with EINTR, with another error, or with events.
pub data Wait (E : Type 0) : Type 0 where
  interrupted : Wait E
  broken : Wait E
  arrived : List (Polled E) → Wait E

module _ {E : Type 0} where
  -- The inner loop of idle over the successive returns of epoll_wait: the events to handle, once a
  -- return is no EINTR.
  unfoldable pub wait_events : List (Wait E) → Option (List (Polled E))
  wait_events [] = none
  wait_events (interrupted ∷ ws) = wait_events ws
  wait_events (broken ∷ ws) = some []
  wait_events (arrived es ∷ ws) = some es

  -- The loop over the events; schedule_event is the virtual method scheduleEvent.
  unfoldable pub handle_events :
      (E → Scheduler → Scheduler) → Scheduler → List (Polled E) → Scheduler
  handle_events schedule_event s [] = s
  handle_events schedule_event s (tickled ∷ es) =
      handle_events schedule_event (record s { pipe = 0 }) es
  handle_events schedule_event s (io e ∷ es) = handle_events schedule_event (schedule_event e s) es

  -- One round of idle after epoll_wait, up to its Yield.
  unfoldable pub idle_round :
      (E → Scheduler → Scheduler) → Scheduler → ℕ → List (Polled E) → Scheduler
  unfolding schedule_range handle_events
  idle_round schedule_event s now es =
      let (m, funcs) = get_expired_funcs s.timers now [] in
      let s' : Scheduler = record s { timers = m } in
      handle_events schedule_event
        (if is_empty funcs then s' else schedule_range s' (map (func_task minus_one) funcs)) es
