-- ===== src/Scheduler/Workers/Leaving/Ended.antt =====
-- The end of run: once shouldStop says yes, every thread finds its way out.
use native.Mathlib.Decide.{dec_lt}
use eva.Base.{
  ℕ, ◌+◌, ◌*◌, ◌<◌, ◌≤◌, ◌≡◌, ◌⊎◌, inl, inr, refl, true, false, [], u64_max, arith,
  sum_below_positive, weight-le-sum_below,
}
use eva.Scheduler.{should_stop, pick}
use eva.Scheduler.Workers.{
  Pc, looking, taken, found_none, holding, in_fiber, in_func, resting, in_wait, gone, System, Step,
  finds_none, rests, idle_stops, idle_goes_on, Reach,
}
use eva.Scheduler.Workers.Counting.{is_working}
use eva.Scheduler.Workers.Stopping.{is_gone, should_stop_quiet}
use eva.Scheduler.Workers.Leaving.{
  IsOwn, OwnSteps, is_taken, left_of, place, left, Settled, free_lem, should_stop-tasks,
  OwnSteps-Settled, left-le,
}

CanStep : ℕ → System → Type 0
CanStep n s = (t : System) × (st : Step n s t) × IsOwn st

CanStep-at :
    (n : ℕ) (s : System) (i : ℕ) (p : Pc)
    → i < n
    → Settled n s
    → s.pc i ≡ p
    → 0 < left_of (p, s.idle_ended i)
    → CanStep n s
unfolding CanStep pick
CanStep-at n s i looking lt v e w =
    let none_left : s.sched.tasks ≡ [] = should_stop-tasks s.sched v.yes_stop in
    (_, finds_none i 1 0 lt e (rw none_left), tt)
CanStep-at n s i found_none lt v e w = (_, rests i lt e, tt)
CanStep-at n s i resting lt v e w = (_, idle_stops i lt e v.yes_stop, tt)
CanStep-at n s i in_wait lt v e w =
    (_, idle_goes_on i {c = s.sched} lt e (record { same_active = refl; same_idle = refl }), refl)
CanStep-at n s i gone lt v e w = absurd (omega arith)
CanStep-at n s i (taken tk b) lt v e w = absurd (omega arith)
CanStep-at n s i (holding tk) lt v e w = absurd (omega arith)
CanStep-at n s i (in_fiber f) lt v e w = absurd (omega arith)
CanStep-at n s i (in_func f) lt v e w = absurd (omega arith)

all_gone :
    (n : ℕ) (s : System) → Settled n s → left n s ≡ 0 → (i : ℕ) → i < n → is_gone (s.pc i) ≡ true
unfolding left
all_gone n s v z i lt = ground (arith, v.free i lt, weight-le-sum_below left_of n (place s) i lt)

gone_or_steps :
    (n : ℕ) (s : System) → Settled n s → ((i : ℕ) → i < n → is_gone (s.pc i) ≡ true) ⊎ CanStep n s
unfolding left
gone_or_steps n s v = elim (dec_lt 0 (left n s)) [
  | yes h ↦
      let (i, lt, w) = sum_below_positive left_of n (place s) h in
      inr (CanStep-at n s i (s.pc i) lt v refl w)
  | no h ↦ inl (all_gone n s v (omega arith))
]

-- While the threads and the dropped tasks are fewer than 2 ^ 64: once shouldStop says yes and no thread
-- has a task in hand that it has not counted yet, then as long as the rest of the program does nothing
-- to the scheduler and the idle fibers that come back from epoll_wait leave what shouldStop says as it is,
-- whatever order the threads go on in, shouldStop goes on to say yes, the n threads make 6 n steps at
-- most, those asleep in epoll_wait included, and wherever they have got to, all of them have left run or
-- one of them can make a step. A return of epoll_wait is such a step: it has a timeout.
pub all_leave :
    {n k : ℕ} {s t : System}
    → Reach n s
    → n + s.lost ≤ u64_max
    → should_stop s.sched ≡ true
    → ((i : ℕ) → i < n → is_taken (s.pc i) ≡ false)
    → OwnSteps n s k t
    → (should_stop t.sched ≡ true)
      × (k ≤ 6 * n)
      × (((i : ℕ) → i < n → is_gone (t.pc i) ≡ true)
          ⊎ ((u : System) × (st : Step n t u) × IsOwn st))
unfolding CanStep
all_leave {n} {k} {s} {t} r b h q ss =
    let still : (i : ℕ) → i < n → is_working (s.pc i) ≡ 0 = (should_stop_quiet r b h).5 in
    let v : Settled n s = record {
      yes_stop = h;
      free = λ i lt. free_lem (s.pc i) (still i lt) (q i lt);
    } in
    let (v', l) = OwnSteps-Settled v ss in
    (v'.yes_stop, omega (arith, left-le n s), gone_or_steps n t v')
