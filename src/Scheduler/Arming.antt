-- ===== src/Scheduler/Arming.antt =====
-- src/timer.cpp with src/scheduler.cpp: what a change of the timers does to the threads that sleep in
-- epoll_wait. addTimer and refresh call the virtual onFirstTimerChanged, which writes to the tickle
-- pipe.
pub mod Awake
mod Tests
use eva.Base.{ℕ, Bool, false, List, [], ◌∷◌, if◌then◌else◌}
use eva.Timer.{TimerManager, Func, add_timer, cancel, refresh}
use eva.Scheduler.{Scheduler, tickle, idle_round}

unfoldable pub on_first_timer_changed : Scheduler → Scheduler
unfolding tickle
on_first_timer_changed s = tickle s

-- The end of addTimer: `if (changed) onFirstTimerChanged();`.
unfoldable pub announce : Scheduler → TimerManager → Bool → Scheduler
unfolding on_first_timer_changed
announce s m changed =
    let s' : Scheduler = record s { timers = m } in
    if changed then on_first_timer_changed s' else s'

-- addTimer and refresh on a Scheduler.
unfoldable pub arm_timer : Scheduler → ℕ → ℕ → ℕ → Func → Bool → Scheduler
unfolding add_timer announce
arm_timer s p now period func recurring =
    let (m, changed) = add_timer s.timers p now period func recurring in announce s m changed

unfoldable pub refresh_timer : Scheduler → ℕ → ℕ → Scheduler × Bool
unfolding refresh announce
refresh_timer s p now =
    let (m, found, changed) = refresh s.timers p now in (announce s m changed, found)

-- What happens to the timers while a thread sleeps: the three methods, and a round of idle in another
-- thread, up to its loop over the events.
pub data Change : Type 0 where
  arms : ℕ → ℕ → ℕ → Func → Bool → Change
  refreshes : ℕ → ℕ → Change
  cancels : ℕ → Change
  expires : ℕ → Change

unfoldable pub apply : Scheduler → Change → Scheduler
unfolding arm_timer refresh_timer cancel idle_round
apply s (arms p now period func recurring) = arm_timer s p now period func recurring
apply s (refreshes p now) = (refresh_timer s p now).0
apply s (cancels p) = record s { timers = (cancel s.timers p).0 }
apply s (expires now) = idle_round {E = Unit {0}} (λ e s'. s') s now []

unfoldable pub apply_all : Scheduler → List Change → Scheduler
unfolding apply
apply_all s [] = s
apply_all s (c ∷ cs) = apply_all (apply s c) cs
