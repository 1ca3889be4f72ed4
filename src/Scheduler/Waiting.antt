-- ===== src/Scheduler/Waiting.antt =====
-- How long idle blocks in epoll_wait.
use eva.Base.{ℕ, ◌+◌, ◌<◌, ◌≤◌, ◌≡◌, ◌≢◌, [], arith}
use eva.Timer.{get_next_time_ms, get_expired_funcs}
use eva.Timer.Order.{IsSorted}
use eva.Timer.Wait.{get_next_time_ms_exact}
use eva.Scheduler.{Scheduler, wait_timeout, epoll_wait_timeout_ms}

-- With a timer in the sorted set, idle blocks for 3000 ms at most and no longer than until the first timer
-- expires: before the timeout is over no timer has expired, and if the timeout is less than 3000 ms
-- one has when it is over.
pub wait_timeout_bounds :
    (s : Scheduler) (now : ℕ)
    → IsSorted s.timers.store s.timers.timers
    → s.timers.timers ≢ []
    → (wait_timeout s now ≤ epoll_wait_timeout_ms)
      × ((t : ℕ)
          → now ≤ t
          → t < now + wait_timeout s now
          → (get_expired_funcs s.timers t []).1 ≡ [])
      × (wait_timeout s now < epoll_wait_timeout_ms
          → (get_expired_funcs s.timers (now + wait_timeout s now) []).1 ≢ [])
unfolding wait_timeout
wait_timeout_bounds s now so n = (
  ground arith,
  (λ t le lt. (get_next_time_ms_exact s.timers now t so n le).1 (ground arith)),
  λ lt e. ground (
    arith,
    (get_next_time_ms_exact s.timers now (now + get_next_time_ms s.timers now) so n
        (omega arith)).0,
  ),
)
