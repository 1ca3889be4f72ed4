-- ===== src/Scheduler/Workers/Delivered/Balanced.antt =====
-- In all interleavings of the threads each task is begun once or dropped once.
use eva.Base.{
  ℕ, zero, suc, ◌+◌, ◌<◌, ◌≡◌, refl, Bool, List, [], ◌∷◌, ◌++◌, arith, update, ℤ, pos, not,
  is_empty, sum_below, sum_below-update, inl, inr, Bool-cases,
}
use mathlib.Core.List.{append-nil}
use eva.Fiber.{State}
use eva.Scheduler.{
  Task, Scheduler, schedule, pick, took, count_task, back_from_fiber, back_from_func, enter_idle,
  leave_idle,
}
use eva.Scheduler.Workers.{
  Pc, looking, taken, found_none, holding, in_fiber, in_func, resting, in_wait, gone, System, at,
  with_sched, go_idle, fiber_back, func_back, Step, takes, counts, finds_none, calls_fiber,
  calls_func, drops, fiber_returns, func_returns, rests, idle_stops, idle_waits, idle_goes_on,
  elsewhere,
}
use eva.Scheduler.Workers.Delivered.{
  rescheduled, Adds, begun_by, dropped_by, Trace, no_steps, and_step, weigh, in_hand,
}

module _ (w : Task → ℕ) where
  weigh-append : (ts us : List Task) → weigh w (ts ++ us) ≡ weigh w ts + weigh w us
  weigh-append [] us = omega arith
  weigh-append (tk ∷ ts) us = omega (arith, weigh-append ts us)

  -- The tasks that wait, in the queue and in the hands of n threads.
  waiting : ℕ → System → ℕ
  waiting n s = weigh w s.sched.tasks + sum_below (in_hand w) n s.pc

  pick-tasks :
      (fuel : ℕ) (tid : ℤ) (st : ℕ → State) (ts : List Task) (tk : Task) (rest : List Task)
      → pick fuel tid st ts ≡ took tk rest
      → ts ≡ tk ∷ rest
  unfolding pick
  pick-tasks zero tid st ts tk rest e = cc
  pick-tasks (suc fuel) tid st [] tk rest e = cc
  pick-tasks (suc fuel) tid st (t ∷ ts) tk rest e =
      ground (arith, pick-tasks fuel tid st (t ∷ ts) tk rest)

  -- One step: what it adds waits, and what it begins or drops does not wait any more.
  Balanced : {n : ℕ} {s t : System} → Step n s t → List Task → Type 0
  Balanced {n} {s} {t} st more =
      waiting n s + weigh w more ≡ waiting n t + weigh w (begun_by st) + weigh w (dropped_by st)

  -- A thread goes from one point to another.
  moves :
      (n : ℕ) (s t : System) (i : ℕ) (p : Pc) (more out : ℕ)
      → i < n
      → t.pc ≡ update s.pc i p
      → weigh w s.sched.tasks + in_hand w (s.pc i) + more
        ≡ weigh w t.sched.tasks + in_hand w p + out
      → waiting n s + more ≡ waiting n t + out
  unfolding waiting
  moves n s t i p more out lt e b = rw e (omega (arith, sum_below-update (in_hand w) n s.pc i p lt))

  moves_on :
      (n : ℕ) (s t : System) (i : ℕ) (p : Pc)
      → i < n
      → t.pc ≡ update s.pc i p
      → t.sched.tasks ≡ s.sched.tasks
      → in_hand w p ≡ in_hand w (s.pc i)
      → waiting n s + 0 ≡ waiting n t + 0 + 0
  moves_on n s t i p lt e f h = omega (arith, moves n s t i p 0 0 lt e (rw f (omega arith)))

  idles :
      (n : ℕ) (s : System) (i : ℕ)
      → i < n
      → waiting n s ≡ waiting n (go_idle s i) + in_hand w (s.pc i)
  unfolding go_idle
  idles n s i lt = elim (Bool-cases (s.idle_ended i)) [
    | inl y ↦
        rw (y, go_idle)
          (omega
            (arith, moves n s (at s i gone) i gone 0 (in_hand w (s.pc i)) lt refl (omega arith)))
    | inr y ↦
        rw (y, go_idle)
          (omega (
            arith,
            moves n s (at (with_sched s (enter_idle s.sched)) i resting) i resting 0
                (in_hand w (s.pc i)) lt refl (omega arith),
          ))
  ]

  tasks-schedule : (c : Scheduler) (tk : Task) → (schedule c tk).tasks ≡ c.tasks ++ tk ∷ []
  unfolding schedule
  tasks-schedule c tk = ground arith

  tasks-fiber_back :
      (s : System) (i f : ℕ) (st : State)
      → (fiber_back s i f st).sched.tasks ≡ s.sched.tasks ++ rescheduled f st
  unfolding fiber_back back_from_fiber schedule
  tasks-fiber_back s i f st = ground (arith, append-nil s.sched.tasks)

  tasks-func_back :
      (s : System) (i f : ℕ) (st : State)
      → (func_back s i f st).sched.tasks ≡ s.sched.tasks ++ rescheduled f st
  unfolding func_back back_from_func schedule
  tasks-func_back s i f st = ground (arith, append-nil s.sched.tasks)

  comes_back :
      (n : ℕ) (s t : System) (i : ℕ) (more : List Task)
      → i < n
      → t.pc ≡ update s.pc i looking
      → in_hand w (s.pc i) ≡ 0
      → t.sched.tasks ≡ s.sched.tasks ++ more
      → waiting n s + weigh w more ≡ waiting n t + 0 + 0
  comes_back n s t i more lt e h f =
      let g : weigh w t.sched.tasks ≡ weigh w s.sched.tasks + weigh w more =
        rw f (weigh-append s.sched.tasks more) in
      omega (arith, moves n s t i looking (weigh w more) 0 lt e (omega arith))

  waiting-lost : (n : ℕ) (s : System) (k : ℕ) → waiting n (record s { lost = k }) ≡ waiting n s
  unfolding waiting
  waiting-lost n s k = refl

  others :
      (n : ℕ) (s t : System) (more : List Task)
      → t.pc ≡ s.pc
      → t.sched.tasks ≡ s.sched.tasks ++ more
      → waiting n s + weigh w more ≡ waiting n t + 0 + 0
  unfolding waiting
  others n s t more e f =
      let g : weigh w t.sched.tasks ≡ weigh w s.sched.tasks + weigh w more =
        rw f (weigh-append s.sched.tasks more) in
      rw e (omega arith)

  tasks-count_task : (c : Scheduler) (tk : Task) (b : Bool) → (count_task c tk b).tasks ≡ c.tasks
  unfolding count_task
  tasks-count_task c tk b = ground arith

  Step-Balanced :
      {n : ℕ} {s t : System} (st : Step n s t) (more : List Task) → Adds st more → Balanced st more
  unfolding Balanced fiber_back func_back leave_idle
  Step-Balanced {n} {s} {t} (takes i fuel tid tk rest lt e h) more a =
      let q = pick-tasks fuel (pos tid) s.state s.sched.tasks tk rest h in
      let g : weigh w s.sched.tasks ≡ w tk + weigh w rest = rw q in
      rw a (
        omega
          (arith, moves n s t i (taken tk (not (is_empty rest))) 0 0 lt refl (rw e (omega arith))))
  Step-Balanced {n} {s} {t} (counts i tk b lt e c) more a =
      rw a (moves_on n s t i (holding tk) lt refl (tasks-count_task s.sched tk b) (rw e))
  Step-Balanced {n} {s} {t} (finds_none i fuel tid lt e h) more a =
      rw a (moves_on n s t i found_none lt refl refl (rw e))
  Step-Balanced {n} {s} {t} (calls_fiber i f tk lt e u d) more a =
      rw a (omega (arith, moves n s t i (in_fiber f) 0 (w tk) lt refl (rw e (omega arith))))
  Step-Balanced {n} {s} {t} (calls_func i f tk lt e u d) more a =
      rw a (omega (arith, moves n s t i (in_func f) 0 (w tk) lt refl (rw e (omega arith))))
  Step-Balanced {n} {s} {t} (drops i tk lt e d) more a =
      let z : in_hand w (s.pc i) ≡ w tk = rw e in
      let g = idles n (record s { lost = s.lost + 1 }) i lt in
      rw a (omega (arith, waiting-lost n s (s.lost + 1)))
  Step-Balanced {n} {s} {t} (fiber_returns i f st lt e r) more a =
      comes_back n s t i more lt refl (rw e) (rw a (tasks-fiber_back s i f st))
  Step-Balanced {n} {s} {t} (func_returns i f st lt e r) more a =
      comes_back n s t i more lt refl (rw e) (rw a (tasks-func_back s i f st))
  Step-Balanced {n} {s} {t} (rests i lt e) more a =
      let z : in_hand w (s.pc i) ≡ 0 = rw e in rw a (omega (arith, idles n s i lt))
  Step-Balanced {n} {s} {t} (idle_stops i lt e h) more a =
      rw a (moves_on n s t i looking lt refl refl (rw e))
  Step-Balanced {n} {s} {t} (idle_waits i lt e h) more a =
      rw a (moves_on n s t i in_wait lt refl refl (rw e))
  Step-Balanced {n} {s} {t} (idle_goes_on i lt e l) more a =
      comes_back n s t i more lt refl (rw e) a
  Step-Balanced {n} {s} {t} (elsewhere st l) more a = others n s t more refl a

  Trace-Balanced :
      {n : ℕ} {s : System} {new begun dropped : List Task} {t : System}
      → Trace n s new begun dropped t
      → waiting n s + weigh w new ≡ waiting n t + weigh w begun + weigh w dropped
  Trace-Balanced (no_steps a b c) = rw a (rw b (rw c (omega arith)))
  Trace-Balanced {n}
        (and_step {new} {begun} {dropped} {t} {u} tr st more all_new all_begun all_dropped a e f
          g) =
      let ih = Trace-Balanced tr in
      let one : waiting n t + weigh w more
          ≡ waiting n u + weigh w (begun_by st) + weigh w (dropped_by st) =
        unfold Balanced in Step-Balanced st more a in
      rw e (
        rw f (
          rw g (
            omega (
              arith,
              weigh-append new more,
              weigh-append begun (begun_by st),
              weigh-append dropped (dropped_by st),
            ))))

  -- In every sequence of steps of n threads, of the fibers that come back READY and are scheduled
  -- again, and of a program that does nothing to the queue but schedule tasks: however tasks are
  -- weighed, those that waited in the queue or in a thread's hands before and those that were
  -- scheduled weigh w as much as those that wait afterwards, those whose fiber or function was called
  -- and those that were dropped. So each task is begun once or dropped once or still waits, and none
  -- is begun that was not scheduled.
  pub delivered_lem :
      (n : ℕ) (s t : System) (new begun dropped : List Task)
      → Trace n s new begun dropped t
      → weigh w s.sched.tasks + sum_below (in_hand w) n s.pc + weigh w new
        ≡ weigh w t.sched.tasks + sum_below (in_hand w) n t.pc + weigh w begun + weigh w dropped
  unfolding waiting
  delivered_lem n s t new begun dropped tr = Trace-Balanced tr
