-- ===== src/Locks/Operations.antt =====
-- The operations of src/ as trees of the sections that they go through under a lock.
use eva.Base.{ℕ, Bool, true, false, not, ◌&&◌, List, [], ◌∷◌, if◌then◌else◌}
use eva.Locks.{
  Nest, done, section, followed_by, write_locks, under, under_shared, when, log_locks,
  contexts_lock, files_lock, context_lock, tasks_lock, timers_lock, registry_lock, logger_lock,
  appender_lock,
}

-- A call of schedule: its Scheduler, and what decides on its sections: whether the queue was empty,
-- whether a thread is idle, and whether g_logger lets DEBUG pass.
pub record Wakes : Type 0 where
  pub scheduler : ℕ
  pub was_empty : Bool
  pub idle : Bool
  pub debug : Bool

-- The operations on an IOManager at the address m by a thread that may be hooked, with g_logger at g,
-- its appenders, and the FdManager at f.
module _ (m g f : ℕ) (hooked : Bool) (appenders : List ℕ) where
  -- EVA_LOG_DEBUG and EVA_LOG_ERROR to g_logger, where the level of the logger lets it pass.
  unfoldable pub say_locks : Bool → Nest
  unfolding log_locks
  say_locks passes = when passes (log_locks g f hooked appenders passes)

  unfoldable pub tickle_locks : Bool → Bool → Nest
  unfolding say_locks followed_by write_locks
  tickle_locks idle debug = when idle (followed_by (say_locks debug) (write_locks f hooked))

  -- The two schedule.
  unfoldable pub schedule_locks : Wakes → Nest
  unfolding tickle_locks
  schedule_locks w = under (tasks_lock w.scheduler) (when w.was_empty (tickle_locks w.idle w.debug))

  unfoldable pub should_stop_locks : Nest
  should_stop_locks = under (tasks_lock m) (under_shared (timers_lock m) done)

  unfoldable pub add_timer_locks : Bool → Bool → Bool → Nest
  unfolding tickle_locks
  add_timer_locks changed idle debug =
      section false (timers_lock m) done (when changed (tickle_locks idle debug))

  unfoldable pub refresh_locks : Bool → Bool → Bool → Bool → Nest
  unfolding add_timer_locks
  refresh_locks hit changed idle debug =
      section false (timers_lock m) done (when hit (add_timer_locks changed idle debug))

  unfoldable pub expired_locks : Bool → Nest
  expired_locks none_set =
      section true (timers_lock m) done (if none_set then done else under (timers_lock m) done)

  unfoldable pub add_event_locks : ℕ → Bool → Nest
  add_event_locks c need_resize = section true (contexts_lock m) done (
      section (if need_resize then false else true) (contexts_lock m) done
        (under (context_lock c) done))

  unfoldable pub del_event_locks : ℕ → Bool → Nest
  del_event_locks c known =
      section true (contexts_lock m) done (when known (under (context_lock c) done))

  unfoldable pub cancel_event_locks : ℕ → Bool → Bool → Wakes → Nest
  unfolding schedule_locks
  cancel_event_locks c known registered w =
      section true (contexts_lock m) done
        (when known (under (context_lock c) (when registered (schedule_locks w))))

  -- FdContext::scheduleEvent for READ and for WRITE, as cancelAll and scheduleEvent call it.
  unfoldable pub fire_both_locks : Bool → Bool → Wakes → Wakes → Nest
  unfolding schedule_locks followed_by
  fire_both_locks read write first second =
      followed_by (when read (schedule_locks first)) (when write (schedule_locks second))

  unfoldable pub cancel_all_locks : ℕ → Bool → Bool → Bool → Bool → Bool → Wakes → Wakes → Nest
  unfolding say_locks fire_both_locks
  cancel_all_locks c known fails error read write first second =
      section true (contexts_lock m) done (
        when known (
          under (context_lock c)
            (if fails then say_locks error else fire_both_locks read write first second)))

  unfoldable pub schedule_event_locks :
      ℕ → Bool → Bool → Bool → Bool → Bool → Bool → Wakes → Wakes → Nest
  unfolding say_locks fire_both_locks followed_by
  schedule_event_locks c broken fails error debug read write first second = under (context_lock c) (
      followed_by (when broken (say_locks error)) (
        if not read && not write
        then say_locks debug
        else if fails
        then say_locks error
        else fire_both_locks read write first second))

-- FdManager::get and del.
unfoldable pub get_locks : ℕ → Bool → Nest
get_locks f creates = section true (files_lock f) done (when creates (under (files_lock f) done))

-- LoggerManager::getLogger; p is the new logger.
unfoldable pub get_logger_locks : ℕ → ℕ → Bool → Nest
get_logger_locks r p known =
    under (registry_lock r) (if known then done else under (logger_lock p) done)

-- The operations: the two schedule, the search of run, shouldStop, start and the parts of stop; the
-- methods of a TimerManager; those of an IOManager; get and del of an FdManager; and those of loggers
-- and appenders. Under its lock start also waits for each new thread's semaphore, which the thread
-- notifies before it takes any lock.
pub data LockCall : Type 0 where
  schedules : Wakes → LockCall
  tickles : Bool → Bool → LockCall
  locks_tasks should_stops : LockCall
  adds_timer : Bool → Bool → Bool → LockCall
  refreshes : Bool → Bool → Bool → Bool → LockCall
  cancels reads_timers : LockCall
  expires : Bool → LockCall
  adds_event : ℕ → Bool → LockCall
  dels_event : ℕ → Bool → LockCall
  cancels_event : ℕ → Bool → Bool → Wakes → LockCall
  cancels_all : ℕ → Bool → Bool → Bool → Bool → Bool → Wakes → Wakes → LockCall
  schedules_event : ℕ → Bool → Bool → Bool → Bool → Bool → Bool → Wakes → Wakes → LockCall
  gets_fd : Bool → LockCall
  dels_fd : LockCall
  gets_logger : ℕ → ℕ → Bool → LockCall
  logs : ℕ → List ℕ → Bool → LockCall
  changes_logger changes_appender : ℕ → LockCall

module _ (m g f : ℕ) (hooked : Bool) (appenders : List ℕ) where
  unfoldable pub locks_of : LockCall → Nest
  unfolding schedule_locks tickle_locks should_stop_locks add_timer_locks refresh_locks
      expired_locks add_event_locks del_event_locks cancel_event_locks cancel_all_locks
      schedule_event_locks get_locks get_logger_locks log_locks
  locks_of (schedules w) = schedule_locks m g f hooked appenders w
  locks_of (tickles idle debug) = tickle_locks m g f hooked appenders idle debug
  locks_of locks_tasks = under (tasks_lock m) done
  locks_of should_stops = should_stop_locks m g f hooked appenders
  locks_of (adds_timer changed idle debug) =
      add_timer_locks m g f hooked appenders changed idle debug
  locks_of (refreshes hit changed idle debug) =
      refresh_locks m g f hooked appenders hit changed idle debug
  locks_of cancels = under (timers_lock m) done
  locks_of reads_timers = under_shared (timers_lock m) done
  locks_of (expires none_set) = expired_locks m g f hooked appenders none_set
  locks_of (adds_event c need_resize) = add_event_locks m g f hooked appenders c need_resize
  locks_of (dels_event c known) = del_event_locks m g f hooked appenders c known
  locks_of (cancels_event c known registered w) =
      cancel_event_locks m g f hooked appenders c known registered w
  locks_of (cancels_all c known fails error read write first second) =
      cancel_all_locks m g f hooked appenders c known fails error read write first second
  locks_of (schedules_event c broken fails error debug read write first second) =
      schedule_event_locks m g f hooked appenders c broken fails error debug read write first second
  locks_of (gets_fd creates) = get_locks f creates
  locks_of dels_fd = under (files_lock f) done
  locks_of (gets_logger r p known) = get_logger_locks r p known
  locks_of (logs p as_of passes) = log_locks p f hooked as_of passes
  locks_of (changes_logger p) = under (logger_lock p) done
  locks_of (changes_appender a) = under (appender_lock a) done

-- Operations one after another, each with its IOManager and with the thread's t_hooked.
unfoldable pub locks_of_all : ℕ → ℕ → List ℕ → List (ℕ × Bool × LockCall) → Nest
unfolding locks_of followed_by
locks_of_all g f appenders [] = done
locks_of_all g f appenders ((m, hooked, o) ∷ os) =
    followed_by (locks_of m g f hooked appenders o) (locks_of_all g f appenders os)
