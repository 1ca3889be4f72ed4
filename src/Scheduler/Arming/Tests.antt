-- ===== src/Scheduler/Arming/Tests.antt =====
-- Timers that change while a thread sleeps, on concrete deadlines.
use eva.Base.{
  ℕ, ◌+◌, ◌<◌, ◌≤◌, ◌≡◌, ◌⊎◌, refl, true, false, [], ◌∷◌, List, mem, ltb, if◌then◌else◌, arith,
}
use eva.Scheduler.{Scheduler, wait_timeout}
use eva.Scheduler.Arming.{Change, arms, refreshes, apply, apply_all}
use eva.Scheduler.Arming.Awake.{apply_all_awake, AllAllowed}

-- One thread is idle; the timer at address 1 is due at 100.
abbrev sleeping : Scheduler
sleeping = record {
  timers = record {
    store = λ p. record { period = 50; next = 100; func = 7; recurring = true };
    timers = 1 ∷ [];
  };
  tasks = [];
  thread_count = 1;
  threads = 1;
  stopped = false;
  stopping = false;
  auto_stop = false;
  active_threads = 0;
  idle_threads = 1;
  pending_count = 0;
  pipe = 0;
}

-- A timer that is due at 250, one that is due at 95, and a refresh of the first.
abbrev changes : List Change
changes = arms 2 90 160 8 false ∷ arms 3 90 5 9 false ∷ refreshes 1 92 ∷ []

changed_pipe : (apply_all sleeping changes).pipe ≡ 1
unfolding apply_all
changed_pipe = refl

refreshed_pipe : (apply_all sleeping (arms 2 90 160 8 false ∷ refreshes 1 92 ∷ [])).pipe ≡ 1
unfolding apply_all
refreshed_pipe = refl

later_pipe : (apply_all sleeping (arms 2 90 160 8 false ∷ [])).pipe ≡ 0
unfolding apply_all
later_pipe = refl

changes_allowed : AllAllowed sleeping changes
unfolding apply
changes_allowed = (refl, (refl, (tt, tt)))

apply_all_awake_example :
    (0 < (apply_all sleeping changes).pipe)
    ⊎ ((q : ℕ)
        → mem q (apply_all sleeping changes).timers.timers ≡ true
        → let due = ((apply_all sleeping changes).timers.store q).next in
          90 + wait_timeout sleeping 90 ≤ (if ltb 90 due then due else 90))
apply_all_awake_example = apply_all_awake sleeping 90 changes (tt, tt) (omega arith) changes_allowed
