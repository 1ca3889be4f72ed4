-- ===== src/IoManager/Polling.antt =====
-- src/scheduler.cpp with src/iomanager.cpp: the loop of idle over the events that epoll_wait returns,
-- on an IOManager, whose scheduleEvent sends fibers and functions back to the schedulers.
pub mod Served
pub mod Conserved
mod Tests
use eva.Base.{ℕ, Bool, List, [], ◌∷◌, if◌then◌else◌, ◌==◌, Outcome, ok, abort, ◌>>=◌}
use eva.Scheduler.{Task, Scheduler, schedule, Polled, tickled, io}
use eva.IoManager.{Mask, Epoll, IoManager}
use eva.IoManager.Manager.{schedule_event}

-- The calls of schedule that reach the scheduler at the address self; others go elsewhere.
unfoldable pub deliver : ℕ → List (ℕ × Task) → Scheduler → Scheduler
unfolding schedule
deliver self [] s = s
deliver self ((target, tk) ∷ sent) s =
    deliver self sent (if target == self then schedule s tk else s)

-- An epoll_event: the index of the context that data.ptr points to, its EPOLLIN and EPOLLOUT, and
-- whether EPOLLHUP or EPOLLERR is set.
pub record IoEvent : Type 0 where
  pub index : ℕ
  pub got : Mask
  pub failing : Bool

module _ (ep : Epoll) (garbage : ℕ → Mask) where
  -- One object: the IOManager's own members, and those of its Scheduler.
  pub record Polling : Type 0 where
    pub events : IoManager ep
    pub sched : Scheduler

  -- What one scheduleEvent leaves: its calls of schedule are made, and both parts see the one
  -- m_pending_count.
  abbrev pub served_by : ℕ → Scheduler → IoManager ep × Bool → Polling
  served_by self sched (m, done) = record {
    events = m;
    sched = deliver self m.sent (record sched { pending_count = m.pending_count });
  }

  unfoldable pub serve_event : ℕ → Polling → IoEvent → Outcome Polling
  unfolding schedule_event deliver
  serve_event self p e =
      schedule_event ep garbage (record p.events { sent = [] }) e.index e.got e.failing >>= λ r.
      ok (served_by self p.sched r)

  unfoldable pub serve_events : ℕ → Polling → List (Polled IoEvent) → Outcome Polling
  unfolding serve_event
  serve_events self p [] = ok p
  serve_events self p (tickled ∷ es) =
      serve_events self (record p { sched = record p.sched { pipe = 0 } }) es
  serve_events self p (io e ∷ es) = serve_event self p e >>= λ p'. serve_events self p' es
