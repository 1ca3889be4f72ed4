-- ===== src/Scheduler/Workers/Waking.antt =====
-- schedule and tickle against the threads that are about to rest: whom a new task wakes.
use eva.Base.{ℕ, ◌<◌, ◌≡◌, refl, false, List, [], ◌∷◌, ◌++◌, arith, is_empty, ◌∙◌, ap, sym}
use mathlib.Core.List.{append-nil, append_assoc}
use eva.Scheduler.{Task, Scheduler, schedule, wait_timeout, enter_idle}
use eva.Scheduler.Queue.{schedule_each}
use eva.Scheduler.Workers.{
  found_none, resting, System, with_sched, go_idle, rests, elsewhere, Step, Steps, here, further,
}

-- What calls of schedule do to a queue in which a task waits: they only add to it.
record Silent (s : Scheduler) (new : List Task) (c : Scheduler) : Type 0 where
  same_pipe : c.pipe ≡ s.pipe
  same_timers : c.timers ≡ s.timers
  behind : c.tasks ≡ s.tasks ++ new

schedule-Silent :
    (s : Scheduler) (tk : Task) → is_empty s.tasks ≡ false → Silent s (tk ∷ []) (schedule s tk)
unfolding schedule
schedule-Silent s tk h = rw h (record { same_pipe = refl; same_timers = refl; behind = refl })

is_empty-snoc : (ts : List Task) (tk : Task) → is_empty (ts ++ tk ∷ []) ≡ false
is_empty-snoc [] tk = refl
is_empty-snoc (t ∷ ts) tk = refl

schedule_each-Silent :
    (s : Scheduler) (new : List Task)
    → is_empty s.tasks ≡ false
    → Silent s new (schedule_each s new)
unfolding schedule_each
schedule_each-Silent s [] h = record {
  same_pipe = refl;
  same_timers = refl;
  behind = sym (append-nil s.tasks);
}
schedule_each-Silent s (tk ∷ new) h =
    let one = schedule-Silent s tk h in
    let waits : is_empty (schedule s tk).tasks ≡ false = rw one.behind (is_empty-snoc s.tasks tk) in
    let v = schedule_each-Silent (schedule s tk) new waits in
    record {
      same_pipe = v.same_pipe ∙ one.same_pipe;
      same_timers = v.same_timers ∙ one.same_timers;
      behind = v.behind ∙ ap (λ ts. ts ++ new) one.behind ∙ append_assoc s.tasks (tk ∷ []) new;
    }

-- A task is scheduled while thread i is on its way to its idle fiber, and thread i goes on.
abbrev pub overtaken : System → ℕ → Task → System
overtaken s i tk = go_idle (with_sched s (schedule s.sched tk)) i

overtaken-Steps :
    {n : ℕ} (s : System) (i : ℕ) (tk : Task)
    → i < n
    → s.pc i ≡ found_none
    → Steps n s (overtaken s i tk)
unfolding schedule
overtaken-Steps {n} s i tk lt e =
    let sched_step : Step n s (with_sched s (schedule s.sched tk)) =
      elsewhere s.state (record { same_active = ground arith; same_idle = ground arith }) in
    further (further here sched_step) (rests i lt e)

-- What is left where no thread was in its idle fiber yet: thread i rests and no byte was written.
record Missed (s : System) (i : ℕ) (tk : Task) (t : System) : Type 0 where
  asleep : t.pc i ≡ resting
  unwritten : t.sched.pipe ≡ s.sched.pipe
  unchanged : t.sched.timers ≡ s.sched.timers
  alone : t.sched.tasks ≡ tk ∷ []

overtaken-Missed :
    (s : System) (i : ℕ) (tk : Task)
    → s.idle_ended i ≡ false
    → s.sched.tasks ≡ []
    → s.sched.idle_threads ≡ 0
    → Missed s i tk (overtaken s i tk)
unfolding go_idle schedule enter_idle
overtaken-Missed s i tk open_i e z =
    rw (open_i, go_idle)
      (record {
        asleep = ground arith;
        unwritten = ground arith;
        unchanged = ground arith;
        alone = ground arith;
      })

-- Where thread i has found the queue empty and not entered its idle fiber yet, and no other thread
-- is in its idle fiber: the steps in which a task is scheduled and thread i goes on to rest lead to a
-- state in which the task waits in the queue and no byte has been written to the tickle pipe. The
-- calls of schedule that follow write none either: they put their tasks behind the first. The timeout
-- of epoll_wait is what it would be without any task.
pub overtaken_lem :
    {n : ℕ} (s : System) (i : ℕ) (tk : Task) (new : List Task)
    → i < n
    → s.pc i ≡ found_none
    → s.idle_ended i ≡ false
    → s.sched.tasks ≡ []
    → s.sched.idle_threads ≡ 0
    → let t = overtaken s i tk in
      let c = schedule_each t.sched new in
      Steps n s t
      × (t.pc i ≡ resting)
      × (c.tasks ≡ tk ∷ new)
      × (c.pipe ≡ s.sched.pipe)
      × ((now : ℕ) → wait_timeout c now ≡ wait_timeout s.sched now)
unfolding wait_timeout
overtaken_lem {n} s i tk new lt e open_i empty z =
    let t = overtaken s i tk in
    let m = overtaken-Missed s i tk open_i empty z in
    let v = schedule_each-Silent t.sched new (rw m.alone) in
    (
      overtaken-Steps s i tk lt e,
      m.asleep,
      v.behind ∙ ap (λ ts. ts ++ new) m.alone,
      v.same_pipe ∙ m.unwritten,
      λ now. rw (v.same_timers ∙ m.unchanged),
    )
