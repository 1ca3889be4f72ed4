-- ===== src/Scheduler/Queue.antt =====
-- The task queue: what schedule adds, in which order run takes, and where its search hangs.
use eva.Base.{
  ℕ, zero, suc, ◌+◌, ◌≡◌, refl, sym, ap, ◌∙◌, Bool, true, false, List, [], ◌∷◌, ◌++◌, if◌then◌else◌,
  ◌==◌, is_empty, arith, ℤ, Bool-cases, inl, inr, ◌&&◌, not, length,
}
use mathlib.Core.List.{append_assoc, append-nil}
use eva.Fiber.{State}
use eva.Scheduler.{
  Task, Scheduler, schedule, emplace, schedule_range, Pick, took, nothing, failed, out_of_fuel,
  is_foreign, may_run, pick,
}

emplace-append : (ts new : List Task) → emplace ts new ≡ ts ++ new
unfolding emplace
emplace-append ts [] = sym (append-nil ts)
emplace-append ts (n ∷ ns) = emplace-append (ts ++ (n ∷ [])) ns ∙ append_assoc ts (n ∷ []) ns

-- Scheduling a range adds its tasks in their order behind those that wait, writes one byte to the
-- tickle pipe exactly if the queue was empty and a thread is idle, and changes nothing else.
pub schedule_range_lem :
    (s : Scheduler) (new : List Task)
    → schedule_range s new ≡ record s {
      tasks = s.tasks ++ new;
      pipe = (if is_empty s.tasks && not (s.idle_threads == 0) then s.pipe + 1 else s.pipe);
    }
unfolding schedule_range
schedule_range_lem s new = rw (emplace-append s.tasks new) (ground arith)

-- Several calls of schedule.
unfoldable pub schedule_each : Scheduler → List Task → Scheduler
schedule_each s [] = s
schedule_each s (n ∷ ns) = schedule_each (schedule s n) ns

tasks-schedule : (s : Scheduler) (n : Task) → (schedule s n).tasks ≡ s.tasks ++ (n ∷ [])
unfolding schedule
tasks-schedule s n = ground arith

tasks-schedule_each :
    (s : Scheduler) (new : List Task) → (schedule_each s new).tasks ≡ emplace s.tasks new
unfolding schedule_each emplace
tasks-schedule_each s [] = refl
tasks-schedule_each s (n ∷ ns) =
    tasks-schedule_each (schedule s n) ns
    ∙ ap (λ (ts : List Task). emplace ts ns) (tasks-schedule s n)

-- What the search finds when it looks at the first task of the queue, with no fuel to count.
abbrev pub first_pick : (ℕ → State) → List Task → Pick
first_pick st [] = nothing
first_pick st (tk ∷ ts) = if may_run st tk then took tk ts else failed

-- The first task of the queue is for another thread than tid.
abbrev pub is_blocked : ℤ → List Task → Bool
is_blocked tid [] = false
is_blocked tid (tk ∷ ts) = is_foreign tid tk

pick-blocked :
    (fuel : ℕ) (tid : ℤ) (st : ℕ → State) (tk : Task) (ts : List Task)
    → is_foreign tid tk ≡ true
    → pick fuel tid st (tk ∷ ts) ≡ out_of_fuel
unfolding pick
pick-blocked zero tid st tk ts e = refl
pick-blocked (suc fuel) tid st tk ts e = rw e (pick-blocked fuel tid st tk ts e)

-- A search by the thread tid that may make at least one round takes the oldest task of the queue, or
-- finds none or fails its ASSERT, at once, unless that task is for another thread; then the search
-- never ends, however many rounds it makes, and whatever tasks wait behind.
pub pick_lem :
    (fuel : ℕ) (tid : ℤ) (st : ℕ → State) (ts : List Task)
    → pick (suc fuel) tid st ts ≡ (if is_blocked tid ts then out_of_fuel else first_pick st ts)
unfolding pick
pick_lem fuel tid st [] = refl
pick_lem fuel tid st (tk ∷ ts) = elim (Bool-cases (is_foreign tid tk)) [
  | inl e ↦ rw e (pick-blocked fuel tid st tk ts e)
  | inr e ↦ rw e
]

-- Taking tasks one after another, each by a search of one round.
pub take_all : ℕ → ℤ → (ℕ → State) → List Task → List Task
take_all zero tid st ts = []
take_all (suc n) tid st ts = elim (pick 1 tid st ts) [
  | took tk rest ↦ tk ∷ take_all n tid st rest
  | _ ↦ []
]

abbrev pub AllRunnable : ℤ → (ℕ → State) → List Task → Type 0
AllRunnable tid st [] = Unit {0}
AllRunnable tid st (tk ∷ ts) =
    (is_foreign tid tk ≡ false) × (may_run st tk ≡ true) × AllRunnable tid st ts

take_all-runnable :
    (tid : ℤ) (st : ℕ → State) (ts : List Task)
    → AllRunnable tid st ts
    → take_all (length ts) tid st ts ≡ ts
unfolding take_all pick
take_all-runnable tid st [] a = refl
take_all-runnable tid st (tk ∷ ts) a = ground (arith, take_all-runnable tid st ts a.2)

-- First in, first out: where every task of the queue may run on the thread tid, the tasks that
-- wait and then those that are scheduled after them, one at a time, are taken in that order.
take_all-schedule_each :
    (tid : ℤ) (st : ℕ → State) (s : Scheduler) (new : List Task)
    → AllRunnable tid st (s.tasks ++ new)
    → take_all (length (s.tasks ++ new)) tid st (schedule_each s new).tasks ≡ s.tasks ++ new
take_all-schedule_each tid st s new a =
    rw (tasks-schedule_each s new, emplace-append s.tasks new)
      (take_all-runnable tid st (s.tasks ++ new) a)
