-- ===== src/Locks.antt =====
-- The locks of src/: which sections under a lock each operation goes through, and how they nest.
-- A section is the scope of a guard, up to an unlock where the code calls it. What decides on the way
-- (a test, the result of a system call, the level of a logger) is an argument. Paths that end the
-- process are left out, and so are constructors and destructors. A guard is taken to give its lock back
-- at its end (m_locked of its class is true). Each operation is a tree of sections and threads run them
-- step by step. On a hooked thread a write, that of tickle and those of the ofstream of an appender too, is
-- the one of hook.cpp, which asks the FdManager for its descriptor; the FdManager does not know the
-- pipe and the files of the loggers, so that nothing else follows.
pub mod Operations
pub mod Threads
pub mod Ordered
pub mod Steps
pub mod Progress
mod Tests
use eva.Base.{ℕ, Bool, true, false, List, [], ◌∷◌, if◌then◌else◌, zero, suc}

-- A lock: `rank` tells its class, `address` the object that it belongs to.
pub record Lock : Type 0 where
  pub rank : ℕ
  pub address : ℕ

-- m_mutex of IOManager and of FdManager, the mtx of an FdContext, m_mutex of Scheduler and of
-- TimerManager, and the m_mtx of LoggerManager, of Logger and of LogAppender.
abbrev pub contexts_lock : ℕ → Lock
contexts_lock p = record { rank = 1; address = p }

abbrev pub files_lock : ℕ → Lock
files_lock p = record { rank = 8; address = p }

abbrev pub context_lock : ℕ → Lock
context_lock p = record { rank = 2; address = p }

abbrev pub tasks_lock : ℕ → Lock
tasks_lock p = record { rank = 3; address = p }

abbrev pub timers_lock : ℕ → Lock
timers_lock p = record { rank = 4; address = p }

abbrev pub registry_lock : ℕ → Lock
registry_lock p = record { rank = 5; address = p }

abbrev pub logger_lock : ℕ → Lock
logger_lock p = record { rank = 6; address = p }

abbrev pub appender_lock : ℕ → Lock
appender_lock p = record { rank = 7; address = p }

abbrev pub max_rank : ℕ
max_rank = 8

-- `section shared l body rest`: body under the lock l, then rest. `shared` tells a MutexReadGuard.
pub data Nest : Type 0 where
  done : Nest
  section : Bool → Lock → Nest → Nest → Nest

unfoldable pub followed_by : Nest → Nest → Nest
followed_by done n = n
followed_by (section shared l body rest) n = section shared l body (followed_by rest n)

abbrev pub under : Lock → Nest → Nest
under l body = section false l body done

abbrev pub under_shared : Lock → Nest → Nest
under_shared l body = section true l body done

abbrev pub when : Bool → Nest → Nest
when b n = if b then n else done

-- A write of a thread that may be hooked: the FdManager's get of do_io.
unfoldable pub write_locks : ℕ → Bool → Nest
write_locks f hooked = when hooked (under_shared (files_lock f) done)

-- The log of the appenders in turn, and Logger::log; f is the FdManager.
unfoldable pub append_each : ℕ → Bool → List ℕ → Nest
unfolding write_locks
append_each f hooked [] = done
append_each f hooked (a ∷ rest) =
    section false (appender_lock a) (write_locks f hooked) (append_each f hooked rest)

unfoldable pub log_locks : ℕ → ℕ → Bool → List ℕ → Bool → Nest
unfolding append_each
log_locks p f hooked appenders passes =
    under (logger_lock p) (when passes (append_each f hooked appenders))
