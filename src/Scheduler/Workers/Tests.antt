-- ===== src/Scheduler/Workers/Tests.antt =====
-- One worker thread on concrete runs.
use eva.Base.{
  update, sum_below, ◌+◌, ℕ, ◌<◌, ◌≤◌, ◌*◌, ◌⊎◌, ◌≡◌, refl, Bool, true, false, List, [], ◌∷◌, none,
  minus_one, arith, ◌==◌, if◌then◌else◌,
}
use eva.Timer.{TimerManager, has_timers}
use eva.Fiber.{State, ready, term}
use eva.Scheduler.{
  Task, Scheduler, fiber_task, func_task, pick, count_task, should_stop, wait_timeout,
}
use eva.Scheduler.Workers.{
  looking, taken, holding, System, Steps, in_func, calls_func, elsewhere, resting, at, with_sched,
  go_idle, Step, takes, counts, drops, Reach, start, next, here, found_none, finds_none, rests,
}
use eva.Scheduler.Workers.Counting.{is_working, Counted, Reach-Counted}
use eva.Scheduler.Queue.{schedule_each}
use eva.Scheduler.Workers.Delivered.{Trace, no_steps, and_step, weigh, in_hand}
use eva.Scheduler.Workers.Delivered.Balanced.{delivered_lem}
use eva.Scheduler.Workers.Waking.{overtaken, overtaken_lem}
use eva.Scheduler.Workers.Leaving.{IsOwn, OwnSteps, none_made, then_own}
use eva.Scheduler.Workers.Leaving.Ended.{all_leave}
use eva.Scheduler.Workers.Stopping.{AllIn, is_gone, should_stop_quiet, lost_never_stops}

abbrev no_timers : TimerManager
no_timers = record {
  store = λ p. record { period = 0; next = 0; func = 0; recurring = false };
  timers = [];
}

-- stop has been called; the tasks given wait in the queue.
abbrev stopping_with : List Task → Scheduler
stopping_with ts = record {
  timers = no_timers;
  tasks = ts;
  thread_count = 1;
  threads = 1;
  stopped = false;
  stopping = true;
  auto_stop = true;
  active_threads = 0;
  idle_threads = 0;
  pending_count = 0;
  pipe = 0;
}

-- The fiber 5 is TERM.
abbrev begin : List Task → System
begin ts = record {
  sched = stopping_with ts;
  pc = λ i. looking;
  state = λ f. if f == 5 then term else ready;
  func_fiber = λ i. none;
  idle_ended = λ i. false;
  lost = 0;
}

begin_reached : (ts : List Task) → Reach 1 (begin ts)
begin_reached ts = start (begin ts) (λ i. refl) refl refl refl

abbrev job : Task
job = func_task minus_one 9

abbrev job_taken : System
job_taken = at (with_sched (begin (job ∷ [])) (stopping_with [])) 0 (taken job false)

abbrev job_held : System
job_held = at (with_sched job_taken (count_task (stopping_with []) job false)) 0 (holding job)

job_held_reached : Reach 1 job_held
unfolding pick
job_held_reached =
    next (next (begin_reached (job ∷ [])) (takes 0 1 12 job [] (omega arith) refl refl))
      (counts 0 job false (omega arith) refl refl)

Reach-Counted_example : Counted 1 job_held
Reach-Counted_example = Reach-Counted 1 job_held_reached

begin_stops : should_stop (stopping_with []) ≡ true
unfolding should_stop has_timers
begin_stops = refl

should_stop_quiet_example :
    ◌≡◌ {A = Bool} true true
    × (◌≡◌ {A = List Task} [] [])
    × (has_timers no_timers ≡ false)
    × ◌≡◌ {A = ℕ} 0 0
    × ◌≡◌ {A = ℕ} 0 0
    × ((i : ℕ) → i < 1 → is_working ((begin []).pc i) ≡ 0)
should_stop_quiet_example = should_stop_quiet (begin_reached []) (omega arith) begin_stops

-- A task for the fiber 5, which isDone, is taken, counted and dropped.
abbrev stale : Task
stale = fiber_task 5 minus_one

abbrev stale_taken : System
stale_taken = at (with_sched (begin (stale ∷ [])) (stopping_with [])) 0 (taken stale false)

abbrev stale_held : System
stale_held =
    at (with_sched stale_taken (count_task (stopping_with []) stale false)) 0 (holding stale)

abbrev stale_lost : System
stale_lost = go_idle (record stale_held { lost = 1 }) 0

stale_lost_reached : Reach 1 stale_lost
unfolding pick
stale_lost_reached =
    next
      (next (next (begin_reached (stale ∷ [])) (takes 0 1 12 stale [] (omega arith) refl refl))
        (counts 0 stale false (omega arith) refl refl))
      (drops 0 stale (omega arith) refl refl)

stale_lost_count : stale_lost.lost ≡ 1
unfolding go_idle
stale_lost_count = refl

stale_lost_in : AllIn stale_lost
unfolding go_idle
stale_lost_in = record { idle_open = λ i. refl; still_in = λ i. ground arith }

lost_never_stops_example :
    (should_stop stale_lost.sched ≡ false) × ((i : ℕ) → is_gone (stale_lost.pc i) ≡ false)
lost_never_stops_example =
    lost_never_stops stale_lost_reached (omega (arith, stale_lost_count)) stale_lost_in here
      (omega (arith, stale_lost_count))

-- The only thread has found no task and rests.
abbrev resting_now : System
resting_now = go_idle (at (begin []) 0 found_none) 0

resting_now_made : OwnSteps 1 (begin []) 2 resting_now
unfolding pick
resting_now_made =
    then_own (then_own (none_made refl) (finds_none 0 1 12 (omega arith) refl refl) tt refl)
      (rests 0 (omega arith) refl) tt refl

all_leave_example :
    (should_stop resting_now.sched ≡ true)
    × (2 ≤ 6 * 1)
    × (((i : ℕ) → i < 1 → is_gone (resting_now.pc i) ≡ true)
        ⊎ ((u : System) × (st : Step 1 resting_now u) × IsOwn st))
all_leave_example =
    all_leave (begin_reached []) (omega arith) begin_stops (λ i lt. refl) resting_now_made

-- The only thread has found no task; the job and another one are scheduled.
abbrev on_the_way : System
on_the_way = at (begin []) 0 found_none

abbrev both_waiting : Scheduler
both_waiting = schedule_each (overtaken on_the_way 0 job).sched (job ∷ [])

overtaken_example :
    Steps 1 on_the_way (overtaken on_the_way 0 job)
    × ((overtaken on_the_way 0 job).pc 0 ≡ resting)
    × (both_waiting.tasks ≡ job ∷ job ∷ [])
    × (both_waiting.pipe ≡ 0)
    × ((now : ℕ) → wait_timeout both_waiting now ≡ wait_timeout (stopping_with []) now)
overtaken_example = overtaken_lem on_the_way 0 job (job ∷ []) (omega arith) refl refl refl refl

-- The job is taken, counted and begun; meanwhile another one is scheduled.
abbrev job_begun : System
job_begun = at (record job_held { state = update job_held.state 3 State.running }) 0 (in_func 3)

abbrev job_joined : System
job_joined = with_sched job_begun (record job_begun.sched { tasks = job ∷ [] })

job_joined-Trace : Trace 1 (begin (job ∷ [])) (job ∷ []) (job ∷ []) [] job_joined
unfolding pick count_task
job_joined-Trace =
    let take : Step 1 (begin (job ∷ [])) job_taken = takes 0 1 12 job [] (omega arith) refl refl in
    let count : Step 1 job_taken job_held = counts 0 job false (omega arith) refl refl in
    let call : Step 1 job_held job_begun = calls_func 0 3 job (omega arith) refl refl refl in
    let join : Step 1 job_begun job_joined =
      elsewhere job_begun.state (record { same_active = refl; same_idle = refl }) in
    let taken_once = and_step (no_steps refl refl refl) take [] [] [] [] refl refl refl refl in
    let counted_once = and_step taken_once count [] [] [] [] refl refl refl refl in
    let called_once = and_step counted_once call [] [] (job ∷ []) [] refl refl refl refl in
    and_step called_once join (job ∷ []) (job ∷ []) (job ∷ []) [] refl refl refl refl

delivered_example :
    weigh (λ tk. 1) (job ∷ [])
      + sum_below (in_hand (λ tk. 1)) 1 (begin (job ∷ [])).pc
      + weigh (λ tk. 1) (job ∷ [])
    ≡ weigh (λ tk. 1) (job ∷ [])
      + sum_below (in_hand (λ tk. 1)) 1 job_joined.pc
      + weigh (λ tk. 1) (job ∷ [])
      + weigh (λ tk. 1) []
delivered_example =
    delivered_lem (λ tk. 1) 1 (begin (job ∷ [])) job_joined (job ∷ []) (job ∷ []) []
      job_joined-Trace
