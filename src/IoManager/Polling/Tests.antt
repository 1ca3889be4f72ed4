-- ===== src/IoManager/Polling/Tests.antt =====
-- Events of a descriptor that a function waits for.
use eva.Base.{
  ◌+◌, ◌≡◌, refl, true, false, List, [], ◌∷◌, length, some, pos, minus_one, Outcome, ok, abort,
  undefined,
}
use eva.Scheduler.{func_task, Polled, tickled, io}
use eva.IoManager.{read, IoManager}
use eva.IoManager.Samples.{take_all, epoll, clean, caller, only_pipe, only_pipe_lem}
use eva.IoManager.Manager.{adds, init, requests}
use eva.IoManager.Manager.Vectors.{total}
use eva.IoManager.Manager.Mirror.{Mirrors, requests-Mirrors}
use eva.IoManager.Polling.{IoEvent, Polling, serve_event, serve_events}
use eva.IoManager.Polling.Conserved.{own, lost_over, serve_events_lem}

abbrev or_else : {A : Type 0} → Outcome A → A → A
or_else (ok a) d = a
or_else abort d = d
or_else undefined d = d

-- The function 7 waits until the descriptor 3 can be read.
awaited : IoManager epoll
unfolding requests take_all
awaited =
    or_else
      (requests epoll clean (init epoll clean only_pipe) (adds caller (pos 3) read (some 7) ∷ []))
      (init epoll clean only_pipe)

awaited-Mirrors : Mirrors epoll 4 awaited
unfolding awaited init
awaited-Mirrors =
    requests-Mirrors epoll clean 4 only_pipe (adds caller (pos 3) read (some 7) ∷ []) awaited
      (λ i. refl) only_pipe_lem refl

abbrev before : Polling epoll clean
before = record {
  events = awaited;
  sched = record {
    timers = record {
      store = λ p. record { period = 0; next = 0; func = 0; recurring = false };
      timers = [];
    };
    tasks = func_task minus_one 5 ∷ [];
    thread_count = 1;
    threads = 1;
    stopped = false;
    stopping = false;
    auto_stop = false;
    active_threads = 0;
    idle_threads = 1;
    pending_count = 1;
    pipe = 2;
  };
}

abbrev events : List (Polled IoEvent)
events =
    tickled
    ∷ io (record { index = 3; got = record { rd = true; wr = false }; failing = false })
    ∷ []

after : Polling epoll clean
unfolding serve_events awaited take_all init
after = or_else (serve_events epoll clean 1 before events) before

after_lem : serve_events epoll clean 1 before events ≡ ok after
unfolding after
after_lem = refl

after_tasks : after.sched.tasks ≡ func_task minus_one 5 ∷ func_task minus_one 7 ∷ []
unfolding after
after_tasks = refl

one_pending : 1 ≡ awaited.pending_count
unfolding awaited init
one_pending = refl

serve_events_lem_example :
    (after.sched.tasks ≡ func_task minus_one 5 ∷ own 1 (lost_over epoll clean 1 before events))
    × (total after.events.contexts + length (lost_over epoll clean 1 before events)
        ≡ total awaited.contexts)
    × Mirrors epoll 4 after.events
    × (after.sched.pending_count ≡ after.events.pending_count)
serve_events_lem_example =
    serve_events_lem epoll clean 4 1 before after events (λ i. refl) awaited-Mirrors one_pending
      after_lem

lost_over_lem : lost_over epoll clean 1 before events ≡ (1, func_task minus_one 7) ∷ []
unfolding lost_over serve_event awaited take_all init
lost_over_lem = refl
