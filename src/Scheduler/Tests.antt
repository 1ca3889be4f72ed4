-- ===== src/Scheduler/Tests.antt =====
-- The task queue and the timeout on concrete inputs.
use eva.Base.{◌≡◌, true, false, List, [], ◌∷◌, pos, minus_one}
use eva.Timer.{TimerManager}
use eva.Fiber.{ready}
use eva.Scheduler.{Task, Scheduler, func_task, pick, out_of_fuel}
use eva.Scheduler.Queue.{pick_lem}

abbrev one_timer : TimerManager
one_timer = record {
  store = λ p. record { period = 50; next = 100; func = 7; recurring = true };
  timers = 1 ∷ [];
}

abbrev quiet : Scheduler
quiet = record {
  timers = one_timer;
  tasks = [];
  thread_count = 1;
  threads = 1;
  stopped = false;
  stopping = false;
  auto_stop = false;
  active_threads = 0;
  idle_threads = 1;
  pending_count = 0;
  pipe = 0;
}

abbrev busy : Scheduler
busy = record quiet { tasks = func_task minus_one 3 ∷ [] }

abbrev new_tasks : List Task
new_tasks = func_task minus_one 4 ∷ func_task (pos 12) 5 ∷ []

-- The thread 12 finds a task for the thread 13 first.
pick_lem_example :
    pick 1000 (pos 12) (λ f. ready) (func_task (pos 13) 1 ∷ func_task minus_one 2 ∷ [])
    ≡ out_of_fuel
pick_lem_example =
    pick_lem 999 (pos 12) (λ f. ready) (func_task (pos 13) 1 ∷ func_task minus_one 2 ∷ [])
