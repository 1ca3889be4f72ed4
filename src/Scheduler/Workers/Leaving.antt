-- ===== src/Scheduler/Workers/Leaving.antt =====
-- The end of run, once shouldStop says yes: the steps that the threads have left.
pub mod Ended
use native.Mathlib.Decide.{dec_lt}
use eva.Fiber.{State}
use eva.Base.{
  List, ◌≢◌, ℤ, ℕ, zero, suc, ◌+◌, ◌*◌, ◌<◌, ◌≤◌, ◌≡◌, ◌⊎◌, inl, inr, refl, fun_ext, subst, Bool,
  true, false, [], update, u64_max, arith, sum_below, sum_below-update, sum_below_positive,
  weight-le-sum_below, pos, sum_below-le, ◌∙◌, Bool-cases,
}
use eva.Scheduler.{Task, Scheduler, should_stop, pick, took, enter_idle, leave_idle}
use eva.Scheduler.Workers.{
  Pc, looking, taken, found_none, holding, in_fiber, in_func, resting, in_wait, gone, System, at,
  go_idle, Step, takes, counts, finds_none, calls_fiber, calls_func, drops, fiber_returns,
  func_returns, rests, idle_stops, idle_waits, idle_goes_on, elsewhere, Reach,
}
use eva.Scheduler.Workers.Counting.{is_working}
use eva.Scheduler.Workers.Stopping.{is_gone, should_stop_quiet}

-- A step of a thread of the scheduler, not of the rest of the program. An idle fiber that wakes up does what its timers and events ask for; here nothing that would let
-- shouldStop say something else.
abbrev pub IsOwn : {n : ℕ} {s t : System} → Step n s t → Type 0
IsOwn (elsewhere st l) = ⊥
IsOwn {s = s} (idle_goes_on i {c} lt e l) = should_stop c ≡ should_stop s.sched
IsOwn _ = Unit {0}

-- k steps of the threads of the scheduler.
pub data OwnSteps (n : ℕ) (s : System) : ℕ → System → Type 0 where
  none_made : {k : ℕ} → k ≡ 0 → OwnSteps n s k s
  then_own :
      {j k : ℕ} {t u : System}
      → OwnSteps n s j t
      → (st : Step n t u) → IsOwn st
      → k ≡ suc j
      → OwnSteps n s k u

abbrev pub is_taken : Pc → Bool
is_taken (taken tk b) = true
is_taken _ = false

-- A thread without a task.
abbrev pub is_free : Pc → Bool
is_free looking = true
is_free found_none = true
is_free resting = true
is_free in_wait = true
is_free gone = true
is_free _ = false

pub free_lem : (p : Pc) → is_working p ≡ 0 → is_taken p ≡ false → is_free p ≡ true
free_lem looking w q = refl
free_lem found_none w q = refl
free_lem resting w q = refl
free_lem in_wait w q = refl
free_lem gone w q = refl
free_lem (taken tk b) w q = cc
free_lem (holding tk) w q = absurd (omega arith)
free_lem (in_fiber f) w q = absurd (omega arith)
free_lem (in_func f) w q = absurd (omega arith)

-- How many steps a thread without a task has left, with whether its idle fiber isDone: it comes back
-- from epoll_wait, looks for a task, rests, and looks once more behind its idle fiber's end.
abbrev pub left_of : Pc × Bool → ℕ
left_of (in_wait, false) = 6
left_of (looking, false) = 5
left_of (found_none, false) = 4
left_of (resting, b) = 3
left_of (in_wait, true) = 3
left_of (looking, true) = 2
left_of (found_none, true) = 1
left_of _ = 0

abbrev pub place : System → ℕ → Pc × Bool
place s i = (s.pc i, s.idle_ended i)

pub left : ℕ → System → ℕ
left n s = sum_below left_of n (place s)

pub record Settled (n : ℕ) (s : System) : Type 0 where
  pub yes_stop : should_stop s.sched ≡ true
  pub free : (i : ℕ) → i < n → is_free (s.pc i) ≡ true

pub should_stop-tasks : (c : Scheduler) → should_stop c ≡ true → c.tasks ≡ []
unfolding should_stop
should_stop-tasks c h = ground arith

should_stop-idle :
    (c : Scheduler)
    → (should_stop (enter_idle c) ≡ should_stop c) × (should_stop (leave_idle c) ≡ should_stop c)
unfolding should_stop enter_idle leave_idle
should_stop-idle c = (refl, refl)

-- One thread moves, which leaves it one step less.
left-move :
    (n : ℕ) (s t : System) (i : ℕ) (p : Pc) (b : Bool)
    → i < n
    → t.pc ≡ update s.pc i p
    → ((j : ℕ) → t.idle_ended j ≡ update s.idle_ended i b j)
    → left_of (place s i) ≡ suc (left_of (p, b))
    → left n s ≡ suc (left n t)
unfolding left
left-move n s t i p b lt e f w =
    let moved : place t ≡ update (place s) i (p, b) = fun_ext (λ j. rw e (ground (arith, f j))) in
    rw moved (omega (arith, sum_below-update left_of n (place s) i (p, b) lt))

-- What a step keeps, and that it is one of those that are left.
Shrinks : ℕ → System → System → Type 0
Shrinks n s t = Settled n t × (left n s ≡ suc (left n t))

moved_to :
    (n : ℕ) (s t : System) (i : ℕ) (p : Pc) (b : Bool)
    → i < n
    → Settled n s
    → t.pc ≡ update s.pc i p
    → ((j : ℕ) → t.idle_ended j ≡ update s.idle_ended i b j)
    → left_of (place s i) ≡ suc (left_of (p, b))
    → is_free p ≡ true
    → should_stop t.sched ≡ true
    → Shrinks n s t
unfolding Shrinks
moved_to n s t i p b lt v e f w c h = (
  record { yes_stop = h; free = λ j l. rw e (ground (arith, v.free j l)) },
  left-move n s t i p b lt e f w,
)

rests_shrink :
    (n : ℕ) (s : System) (i : ℕ)
    → i < n
    → Settled n s
    → s.pc i ≡ found_none
    → Shrinks n s (go_idle s i)
unfolding go_idle
rests_shrink n s i lt v e = elim (Bool-cases (s.idle_ended i)) [
  | inl y ↦
      rw (y, go_idle)
        (moved_to n s (at s i gone) i gone true lt v refl (λ j. ground arith) (ground arith) refl
          v.yes_stop)
  | inr y ↦
      rw (y, go_idle)
        (moved_to n s _ i resting false lt v refl (λ j. ground arith) (ground arith) refl
          ((should_stop-idle s.sched).0 ∙ v.yes_stop))
]

pick_empty :
    (fuel : ℕ) (tid : ℤ) (st : ℕ → State) (tk : Task) (rest : List Task)
    → pick fuel tid st [] ≢ took tk rest
unfolding pick
pick_empty zero tid st tk rest e = cc
pick_empty (suc fuel) tid st tk rest e = cc

Step-Shrinks : {n : ℕ} {s t : System} (st : Step n s t) → IsOwn st → Settled n s → Shrinks n s t
Step-Shrinks {n} {s} {t} (takes i fuel tid tk rest lt e h) o v =
    let none_left : s.sched.tasks ≡ [] = should_stop-tasks s.sched v.yes_stop in
    absurd (
      pick_empty fuel (pos tid) s.state tk rest
        (subst (λ ts. pick fuel (pos tid) s.state ts ≡ took tk rest) none_left h))
Step-Shrinks {n} {s} {t} (counts i tk b lt e c) o v = absurd (ground (arith, v.free i lt))
Step-Shrinks {n} {s} {t} (finds_none i fuel tid lt e h) o v =
    moved_to n s t i found_none (s.idle_ended i) lt v refl (λ j. ground arith) (ground arith) refl
      v.yes_stop
Step-Shrinks {n} {s} (calls_fiber i f tk lt e w d) o v = absurd (ground (arith, v.free i lt))
Step-Shrinks {n} {s} (calls_func i f tk lt e w d) o v = absurd (ground (arith, v.free i lt))
Step-Shrinks {n} {s} (drops i tk lt e d) o v = absurd (ground (arith, v.free i lt))
Step-Shrinks {n} {s} (fiber_returns i f st lt e r) o v = absurd (ground (arith, v.free i lt))
Step-Shrinks {n} {s} (func_returns i f st lt e r) o v = absurd (ground (arith, v.free i lt))
Step-Shrinks {n} {s} (rests i lt e) o v = rests_shrink n s i lt v e
Step-Shrinks {n} {s} {t} (idle_stops i lt e h) o v =
    moved_to n s t i looking true lt v refl (λ j. refl) (ground arith) refl
      ((should_stop-idle s.sched).1 ∙ v.yes_stop)
Step-Shrinks {n} {s} {t} (idle_waits i lt e h) o v = absurd (ground (arith, v.yes_stop))
Step-Shrinks {n} {s} {t} (idle_goes_on i {c} lt e l) o v = elim (Bool-cases (s.idle_ended i)) [
  | inl y ↦
      moved_to n s t i looking true lt v refl (λ j. ground arith) (ground arith) refl
        ((should_stop-idle c).1 ∙ o ∙ v.yes_stop)
  | inr y ↦
      moved_to n s t i looking false lt v refl (λ j. ground arith) (ground arith) refl
        ((should_stop-idle c).1 ∙ o ∙ v.yes_stop)
]
Step-Shrinks (elsewhere st l) o v = absurd o

left_of-le : (x : Pc × Bool) → left_of x ≤ 6
left_of-le (looking, true) = omega arith
left_of-le (looking, false) = omega arith
left_of-le (found_none, true) = omega arith
left_of-le (found_none, false) = omega arith
left_of-le (resting, b) = omega arith
left_of-le (in_wait, true) = omega arith
left_of-le (in_wait, false) = omega arith
left_of-le (gone, b) = omega arith
left_of-le (taken tk c, b) = omega arith
left_of-le (holding tk, b) = omega arith
left_of-le (in_fiber f, b) = omega arith
left_of-le (in_func f, b) = omega arith

pub left-le : (n : ℕ) (s : System) → left n s ≤ 6 * n
unfolding left
left-le n s = sum_below-le left_of n (place s) 6 left_of-le

pub OwnSteps-Settled :
    {n : ℕ} {s : System} {k : ℕ} {t : System}
    → Settled n s
    → OwnSteps n s k t
    → Settled n t × (left n s ≡ left n t + k)
unfolding Shrinks
OwnSteps-Settled v (none_made e) = (v, omega arith)
OwnSteps-Settled v (then_own ss st o e) =
    let (v', l) = OwnSteps-Settled v ss in
    let (v'', l') = Step-Shrinks st o v' in (v'', omega arith)
