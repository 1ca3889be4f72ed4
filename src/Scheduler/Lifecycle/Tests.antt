-- ===== src/Scheduler/Lifecycle/Tests.antt =====
-- Lives of a Scheduler, on a system whose first pipe fails.
use eva.Base.{ℕ, ◌+◌, ◌≡◌, refl, false, [], ◌∷◌, none, some, pos, abort, ◌==◌, if◌then◌else◌}
use eva.Timer.{Timer}
use eva.Scheduler.Lifecycle.{SystemCalls, Built, new_members, new_scheduler, starts, live}

-- The world counts the calls.
abbrev busy : SystemCalls
busy = record {
  World = ℕ;
  epoll_create = λ w. (pos 3, w + 1);
  pipe = λ w. if w == 1 then (none, w + 1) else (some (4, 5), w + 1);
  make_nonblock = λ fd w. (some tt, w + 1);
  add_reading = λ epfd fd w. (some tt, w + 1);
  write_byte = λ fd w. (some tt, w + 1);
}

abbrev memory : ℕ → Timer
memory p = record { period = 0; next = 0; func = 0; recurring = false }

abbrev built : Built busy
built = record { sched = new_members memory (pos 2); epfd = pos 3; tickle_fds = (4, 5); world = 5 }

no_threads : new_scheduler busy memory (pos 0) 0 ≡ abort
unfolding new_scheduler
no_threads = refl

started_twice : live busy 5 (λ r. r) (starts ∷ starts ∷ []) built.sched 5 ≡ abort
unfolding live new_members
started_twice = refl
