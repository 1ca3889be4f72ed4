-- ===== src/Lib.antt =====
-- Verification of EVA01, an event-driven C++ framework: fibers, a scheduler of worker threads with
-- timers, and an IO manager over epoll.
--
-- How the program fits together. A Scheduler is a TimerManager with a task queue. Its worker
-- threads run tasks in fibers; a thread with nothing to do runs its idle fiber, which waits in
-- epoll_wait for the tickle pipe, for the next timer and for IO events. IOManager is a Scheduler
-- that registers descriptors with epoll and schedules the fiber or function that waits for an
-- event.
--
-- Which file models what.
-- Base: tests on numbers, words, stores of objects, sums over threads, and Outcome, in which
--   `abort` stands for a failed ASSERT (src/macro.h), for a null pointer that is followed and for
--   an index outside a vector, and `undefined`, in Log, for a read of which C++ says nothing.
-- Timer: src/timer.h and src/timer.cpp. `insert` and `erase` are those of the std::set with the
--   comparison `cmp`; add_timer and add_ptr are the two addTimer, then cancel, refresh,
--   get_next_time_ms and get_expired_funcs. Timers are addresses in a store. Proofs: Timer/Order
--   for the set, Timer/Expiry and Timer/Expired for getExpiredFuncs, Timer/Updates, Timer/Wait.
--   Timer/View is the specification, a map from timers to their data, with Timer/View/Refines;
--   Timer/Gap is refresh with its two critical sections.
-- Fiber: src/fiber.h and src/fiber.cpp. `call`, `yield`, `yield_as` (Yield and YieldReady),
--   `reset`, `main_func` (the end of MainFunc), the constructors and the destructor, over the
--   executions that the contexts hold. Proofs: Fiber/Switching and Fiber/Reachable for the states
--   that a thread reaches, Fiber/Nested for callers.
-- Scheduler: src/scheduler.h and src/scheduler.cpp. Each function is one stretch of code under the
--   lock or on one counter: schedule, tickle, start, stop, shouldStop, the search of run (`pick`),
--   what run does before and after a task, the timeout and the rounds of idle. `tickle` is what
--   tickle leaves where it returns; try_tickle has its ASSERT too. Scheduler/Workers
--   joins the stretches to the steps of n threads that interleave; Scheduler/Queue,
--   Scheduler/Waiting, and in Scheduler/Workers the modules Counting, Stopping, Leaving (how the
--   threads end), Waking (whom a new task wakes) and Delivered (what becomes of the tasks) hold the
--   proofs.
--   Scheduler/Arming joins it with the timers: onFirstTimerChanged, and what changes while a
--   thread sleeps in epoll_wait, with the proofs in Scheduler/Arming/Awake. Scheduler/Lifecycle
--   has the constructor with its system calls, and lives of calls of start and stop, with the
--   proofs in Scheduler/Lifecycle/Uses.
-- IoManager: src/iomanager.h and src/iomanager.cpp. IoManager/Contexts has the events and
--   contexts, IoManager the operations on one descriptor (`add_slot` and so on), IoManager/Manager
--   the vector of contexts and addEvent, delEvent, cancelEvent, cancelAll and scheduleEvent over
--   it. The kernel is the parameter Epoll: a successful epoll_ctl changes what is registered for
--   its descriptor alone. The Scheduler's constructor has added its tickle pipe to it. Proofs: IoManager/Slots for one operation, IoManager/Manager/Mirror and
--   IoManager/Manager/Once. IoManager/Growth has addEvent's search of its context as steps of
--   several threads, with the proofs in IoManager/Growth/Found and IoManager/Growth/Shrinks.
--   IoManager/Polling joins the IOManager with its Scheduler: the loop of idle over the events,
--   with the proofs in IoManager/Polling/Served and IoManager/Polling/Conserved. IoManager/Samples
--   has an epoll instance for the tests.
-- FdManager: src/fd_manager.h and src/fd_manager.cpp, FdCtx and the manager's get and del. Proofs:
--   FdManager/Lookup, for the manager as a map from descriptors to objects. FdManager/Gets has get
--   with its two critical sections as steps of several threads; FdManager/Gets/Held and
--   FdManager/Gets/Doubled are about these.
-- Hook: src/hook.cpp over the FdManager. Hook has fcntl, ioctl, getsockopt and setsockopt, with
--   the system as the parameter System; Hook/Io has do_io, over the IOManager and the timers, with
--   what the system answers and what happens during a Yield as oracles; Hook/Calls the reads and
--   writes, accept, socket, connect and close; Hook/Sleep the sleeps; Hook/Originals hook_init and
--   the thread's flag. Proofs: Hook/Flags for what fcntl shows of O_NONBLOCK, Hook/Io/Answers and
--   Hook/Io/Waits for do_io, Hook/Calls/Results. Hook/Io/Samples has the states that the tests
--   use.
-- Log: src/log.h and src/log.cpp. Log has the levels, events and items, Log/Pattern the reading of
--   a pattern (initItems), Log/Appenders the appenders' streams, Log/Loggers what appenders and
--   loggers do and the LoggerManager. Proofs: Log/Files for FileLogItem, Log/Pattern/Fuel,
--   Log/Pattern/Segments and Log/Pattern/Meaning for initItems, Log/Loggers/Delivery and
--   Log/Loggers/Logged for what logging writes, Log/Loggers/Registry for getLogger.
-- Mutex: src/mutex.h. Mutex as the interleaved steps of its threads, and the guards of RWMutex.
--   Proofs: Mutex/Owner for isLockedByThisThread, Mutex/Guards for the guards of one thread.
--   Mutex/Sections has threads that touch a memory in the scopes of MutexGuards, step by step, with
--   the proofs in Mutex/Sections/Atomic and Mutex/Sections/Freed: this is why the other modules can
--   take a stretch of code under a lock as one step. Mutex/Sharing has the guards of an RWMutex in
--   several threads, with the proofs in Mutex/Sharing/Tallied and Mutex/Sharing/Excluded.
-- Thread: src/thread.cpp and src/semaphore.cpp, the start of a Thread as the interleaved steps of
--   the thread that makes it and of the new one. Proofs: Thread/Handshake. Thread/Semaphore has
--   the calls of a semaphore, Thread/Release join and the destructor.
-- Util: src/util.cpp, the clock, SleepMs and backtraces. Proofs: Util/Clock, with the timers, and
--   Util/Backtraces. ASSERT of src/macro.h is `assert` of Base/Fault, and `assert_call` where its
--   argument calls the system.
-- Worker: the thread-local variables that Scheduler::run sets, and GetThis.
-- Locks: the locks of all the parts. Locks/Operations has each operation as the tree of the
--   sections that it goes through under a lock, the FdManager's for a hooked write included,
--   Locks/Threads the threads that run them. Proofs:
--   Locks/Ordered, that all take their locks in one order, Locks/Steps and Locks/Progress.
-- The modules named Tests, but for Base/Tests, hold runs on concrete inputs.
--
-- Numbers and loops. uint64_t and size_t are natural numbers with their wrap at 2 ^ 64 written
-- out; a size_t compared as an int is taken to fit. The clock, the addresses that `new` gives and
-- what uninitialised memory holds are arguments. Every loop is a recursion over a list or on its
-- rounds, but for the search of run, which may not end: it takes fuel, and one round of fuel is
-- enough exactly where it ends; the loop of initItems, which takes as much fuel as the pattern has
-- bytes and one more; and the division that prints a number, for which its value is enough. The
-- loops of do_io may go on for ever; they take fuel, and the theorems say how much is enough for
-- the attempts that they are about.
--
-- Not modelled. Logging inside the modelled functions, but for the locks that it takes, the
-- names of schedulers, the release of memory, GetThreadId, the C types of the hooked functions,
-- and src/singleton.h and src/noncopyable.h, which have no behaviour of their own. Where no
-- steps are said to interleave, an operation is one step. What a function of a task does is not
-- modelled: only the state in which its fiber comes back, and that it may call the scheduler.
pub mod Base
pub mod Thread
pub mod Util
pub mod Timer
pub mod Fiber
pub mod Scheduler
pub mod IoManager
pub mod FdManager
pub mod Hook
pub mod Worker
pub mod Locks
pub mod Log
pub mod Mutex
