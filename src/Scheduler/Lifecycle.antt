-- ===== src/Scheduler/Lifecycle.antt =====
-- src/scheduler.cpp: the life of a Scheduler, from its constructor over calls of start and stop to its
-- destructor.
-- The system calls of the constructor are a parameter; the names and the thread's id that it notes
-- are left out. stop joins the threads between its tickles and its last stretch; what they still do
-- until then is a parameter too.
pub mod Uses
mod Tests
use eva.Base.{
  ◌++◌, ℕ, zero, suc, Bool, true, false, List, [], ◌∷◌, Option, none, some, ℤ, pos, negsuc, Outcome,
  ok, abort, assert, assert_call, ◌>>=◌, ◌>>◌,
}
use eva.Timer.{Timer}
use eva.Scheduler.{Scheduler, start, stop_begin, tickle_all, stop_end, destroy}

-- epoll_create(5000), and with none for a failure: pipe, fcntl(fd, F_SETFL, O_NONBLOCK), and epoll_ctl
-- that adds a descriptor with EPOLLIN | EPOLLET; and write(fd, "T", 1).
pub record SystemCalls : Type 1 where
  pub World : Type 0
  pub epoll_create : World → ℤ × World
  pub pipe : World → Option (ℕ × ℕ) × World
  pub make_nonblock : ℕ → World → Option (Unit {0}) × World
  pub add_reading : ℤ → ℕ → World → Option (Unit {0}) × World
  pub write_byte : ℕ → World → Option (Unit {0}) × World

abbrev pub is_positive : ℤ → Bool
is_positive (pos zero) = false
is_positive (pos (suc n)) = true
is_positive (negsuc n) = false

abbrev pub to_size : ℤ → ℕ
to_size (pos n) = n
to_size (negsuc n) = 0

-- The members as their initialisers and the constructor leave them.
unfoldable pub new_members : (ℕ → Timer) → ℤ → Scheduler
new_members memory threads = record {
  timers = record { store = memory; timers = [] };
  tasks = [];
  thread_count = to_size threads;
  threads = 0;
  stopped = true;
  stopping = false;
  auto_stop = false;
  active_threads = 0;
  idle_threads = 0;
  pending_count = 0;
  pipe = 0;
}

module _ (sys : SystemCalls) where
  open sys use {World, epoll_create, pipe, make_nonblock, add_reading}

  -- A constructed scheduler with m_epfd and m_tickle_fds.
  pub record Built : Type 0 where
    pub sched : Scheduler
    pub epfd : ℤ
    pub tickle_fds : ℕ × ℕ
    pub world : World

  unfoldable pub new_scheduler : (ℕ → Timer) → ℤ → World → Outcome Built
  unfolding new_members assert_call
  new_scheduler memory threads w = do
    assert (is_positive threads)
    let (epfd, w0) = epoll_create w
    assert (is_positive epfd)
    (fds, w1) ← assert_call pipe w0
    (u, w2) ← assert_call (make_nonblock fds.0) w1
    (v, w3) ← assert_call (add_reading epfd fds.0) w2
    ok (record { sched = new_members memory threads; epfd = epfd; tickle_fds = fds; world = w3 })

-- Calls on a scheduler.
pub data Use : Type 0 where
  starts stops : Use

module _ (sys : SystemCalls) (fd : ℕ)
    (threads_end : Scheduler × sys.World → Scheduler × sys.World) where
  open sys use {World, write_byte}

  -- stop; fd is m_tickle_fds[1], and threads_end is what the threads do until the last of them is
  -- joined.
  unfoldable pub stop : Scheduler → World → Outcome (Scheduler × World)
  unfolding stop_begin tickle_all stop_end
  stop s w = do
    told ← tickle_all (write_byte fd) s.thread_count (stop_begin s) w
    let (s', w') = threads_end told
    ok (stop_end s', w')

  unfoldable pub use_once : Use → Scheduler → World → Outcome (Scheduler × World)
  unfolding start stop
  use_once starts s w = start s >>= λ s'. ok (s', w)
  use_once stops s w = stop s w

  -- A whole life up to the destructor.
  unfoldable pub live : List Use → Scheduler → World → Outcome (Unit {0})
  unfolding use_once destroy
  live [] s w = destroy s
  live (u ∷ us) s w = use_once u s w >>= λ r. live us r.0 r.1

-- IOManager's constructor calls start, its destructor stop, and then ~Scheduler follows.
abbrev pub io_uses : List Use → List Use
io_uses us = starts ∷ (us ++ (stops ∷ []))
