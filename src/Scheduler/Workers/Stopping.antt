-- ===== src/Scheduler/Workers/Stopping.antt =====
-- shouldStop: what is quiet when it says yes, and what keeps it from ever saying yes.
use eva.Base.{
  ℕ, ◌+◌, ◌<◌, ◌≤◌, ◌≡◌, refl, Bool, true, false, not, [], is_empty, update, u64_max, arith,
  sum_below, weight-le-sum_below, sum_below-le, pos,
}
use eva.Timer.{has_timers}
use eva.Scheduler.{Task, should_stop, pick, took}
use eva.Scheduler.Workers.{
  Pc, looking, taken, found_none, holding, in_fiber, in_func, resting, in_wait, gone, System, at,
  with_sched, go_idle, fiber_back, func_back, Step, takes, counts, finds_none, calls_fiber,
  calls_func, drops, fiber_returns, func_returns, rests, idle_stops, idle_waits, idle_goes_on,
  elsewhere, Reach, next, Steps, here, further,
}
use eva.Scheduler.Workers.Counting.{is_working, Counted, Reach-Counted}

is_working-le : (p : Pc) → is_working p ≤ 1
is_working-le (holding tk) = omega arith
is_working-le (in_fiber f) = omega arith
is_working-le (in_func f) = omega arith
is_working-le _ = omega arith

-- While the threads and the dropped tasks are fewer than 2 ^ 64: when shouldStop says yes in a state
-- that the threads reach, stop has been called, no task waits in the queue, no timer is set, no IO
-- event is pending, no thread works on a task that it has counted, and no counted task was dropped.
pub should_stop_quiet :
    {n : ℕ} {s : System}
    → Reach n s
    → n + s.lost ≤ u64_max
    → should_stop s.sched ≡ true
    → (s.sched.stopping ≡ true)
      × (s.sched.tasks ≡ [])
      × (has_timers s.sched.timers ≡ false)
      × (s.sched.pending_count ≡ 0)
      × (s.lost ≡ 0)
      × ((i : ℕ) → i < n → is_working (s.pc i) ≡ 0)
unfolding should_stop
should_stop_quiet {n} {s} r b h =
    let c : Counted n s = Reach-Counted n r in
    let few : sum_below is_working n s.pc ≤ n =
      omega (arith, sum_below-le is_working n s.pc 1 is_working-le) in
    (
      ground arith,
      ground arith,
      ground arith,
      ground arith,
      ground (arith, c.active),
      λ i lt. ground (arith, c.active, weight-le-sum_below is_working n s.pc i lt),
    )

should_stop_lost :
    {n : ℕ} {s : System}
    → Reach n s
    → n + s.lost ≤ u64_max
    → 0 < s.lost
    → should_stop s.sched ≡ false
should_stop_lost {n} {s} r b l =
    ground (arith, λ (h : should_stop s.sched ≡ true). (should_stop_quiet r b h).4)

abbrev pub is_gone : Pc → Bool
is_gone gone = true
is_gone _ = false

-- No thread has left run, and no idle fiber has ended.
pub record AllIn (s : System) : Type 0 where
  pub idle_open : (i : ℕ) → s.idle_ended i ≡ false
  pub still_in : (i : ℕ) → is_gone (s.pc i) ≡ false

at-AllIn :
    (s t : System) (i : ℕ) (p : Pc)
    → AllIn s
    → is_gone p ≡ false
    → t.pc ≡ update s.pc i p
    → t.idle_ended ≡ s.idle_ended
    → AllIn t
at-AllIn s t i p a e f g = record {
  idle_open = λ j. rw g (a.idle_open j);
  still_in = λ j. rw f (ground (arith, a.still_in j));
}

go_idle-AllIn : (s : System) (i : ℕ) → AllIn s → AllIn (go_idle s i)
unfolding go_idle
go_idle-AllIn s i a = rw (a.idle_open i, go_idle) (at-AllIn s _ i resting a refl refl refl)

Step-AllIn : {n : ℕ} {s t : System} → Step n s t → should_stop s.sched ≡ false → AllIn s → AllIn t
unfolding fiber_back func_back
Step-AllIn {s = s} {t} (takes i fuel tid tk rest lt e h) q a =
    at-AllIn s t i (taken tk (not (is_empty rest))) a refl refl refl
Step-AllIn {s = s} {t} (counts i tk b lt e c) q a = at-AllIn s t i (holding tk) a refl refl refl
Step-AllIn {s = s} {t} (finds_none i fuel tid lt e h) q a =
    at-AllIn s t i found_none a refl refl refl
Step-AllIn {s = s} {t} (calls_fiber i f tk lt e w d) q a =
    at-AllIn s t i (in_fiber f) a refl refl refl
Step-AllIn {s = s} {t} (calls_func i f tk lt e w d) q a =
    at-AllIn s t i (in_func f) a refl refl refl
Step-AllIn {s = s} (drops i tk lt e d) q a =
    go_idle-AllIn (record s { lost = s.lost + 1 }) i
      (record { idle_open = a.idle_open; still_in = a.still_in })
Step-AllIn {s = s} {t} (fiber_returns i f st lt e r) q a = at-AllIn s t i looking a refl refl refl
Step-AllIn {s = s} {t} (func_returns i f st lt e r) q a = at-AllIn s t i looking a refl refl refl
Step-AllIn {s = s} (rests i lt e) q a = go_idle-AllIn s i a
Step-AllIn (idle_stops i lt e h) q a = absurd (ground arith)
Step-AllIn {s = s} {t} (idle_waits i lt e h) q a = at-AllIn s t i in_wait a refl refl refl
Step-AllIn {s = s} {t} (idle_goes_on i lt e l) q a = at-AllIn s t i looking a refl refl refl
Step-AllIn (elsewhere st l) q a = record { idle_open = a.idle_open; still_in = a.still_in }

lost-go_idle : (s : System) (i : ℕ) → (go_idle s i).lost ≡ s.lost
unfolding go_idle
lost-go_idle s i = ground arith

Step-lost : {n : ℕ} {s t : System} → Step n s t → s.lost ≤ t.lost
unfolding fiber_back func_back
Step-lost (takes i fuel tid tk rest lt e h) = omega arith
Step-lost {s = s} (drops i tk lt e d) =
    omega (arith, lost-go_idle (record s { lost = s.lost + 1 }) i)
Step-lost {s = s} (rests i lt e) = omega (arith, lost-go_idle s i)
Step-lost _ = omega arith

-- Once a counted task has been dropped while no idle fiber has ended and every thread is in run,
-- shouldStop never says yes again and no thread ever leaves run, whatever the threads and the rest of
-- the program do, as long as the threads and the dropped tasks are fewer than 2 ^ 64.
pub lost_never_stops :
    {n : ℕ} {s t : System}
    → Reach n s
    → 0 < s.lost
    → AllIn s
    → Steps n s t
    → n + t.lost ≤ u64_max
    → (should_stop t.sched ≡ false) × ((i : ℕ) → is_gone (t.pc i) ≡ false)
lost_never_stops {n} {s} {t} r l a steps b = (along steps b).2
  where
    along :
        {u : System}
        → Steps n s u
        → n + u.lost ≤ u64_max
        → (Reach n u × (0 < u.lost))
          × AllIn u
          × ((should_stop u.sched ≡ false) × ((i : ℕ) → is_gone (u.pc i) ≡ false))
    along here b' = ((r, l), a, (should_stop_lost r b' l, a.still_in))
    along (further {t = w} {u = u} ss st) b' =
        let grows : w.lost ≤ u.lost = Step-lost st in
        let (rl, a', q) = along ss (omega arith) in
        let a'' : AllIn u = Step-AllIn st q.0 a' in
        let r' : Reach n u = next rl.0 st in
        let l' : 0 < u.lost = omega (arith, rl.1) in
        ((r', l'), a'', (should_stop_lost r' b' l', a''.still_in))

-- A task that a thread has taken and not yet counted does not keep the others: where stop is under
-- way and nothing is active, pending or set but the queue's last task, taking this task is a step
-- after which shouldStop says yes, though the task has not begun.
should_stop_taken :
    {n : ℕ} (s : System) (i fuel tid : ℕ) (tk : Task)
    → i < n
    → s.pc i ≡ looking
    → pick fuel (pos tid) s.state s.sched.tasks ≡ took tk []
    → should_stop (record s.sched { tasks = [] }) ≡ true
    → (t : System) × Step n s t × (t.pc i ≡ taken tk false) × (should_stop t.sched ≡ true)
unfolding should_stop
should_stop_taken s i fuel tid tk lt e p h = (
  at (with_sched s (record s.sched { tasks = [] })) i (taken tk false),
  takes i fuel tid tk [] lt e p,
  ground arith,
  ground arith,
)
