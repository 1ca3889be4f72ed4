-- ===== src/Locks/Tests.antt =====
-- Two threads that use the locks of src/.
use eva.Base.{ℕ, zero, suc, refl, Bool, true, false, List, [], ◌∷◌, arith}
use eva.Locks.{Nest, done, section, contexts_lock, context_lock, tasks_lock, timers_lock}
use eva.Locks.Operations.{
  Wakes, LockCall, cancels_event, should_stops, locks_of_all, schedule_locks,
}
use eva.Locks.Threads.{LockUser, enters, Reach, begun, then_step, is_free, is_shareable}
use eva.Locks.Progress.{before}

abbrev wakes : Wakes
wakes = record { scheduler = 1; was_empty = true; idle = true; debug = true }

-- Thread 0 cancels the event of a descriptor; thread 1 asks shouldStop.
abbrev ops : ℕ → List (ℕ × Bool × LockCall)
ops zero = (1, true, cancels_event 5 true true wakes) ∷ []
ops (suc n) = (1, true, should_stops) ∷ []

abbrev start : ℕ → LockUser
start = before 2 9 (3 ∷ []) ops

abbrev cancelling : Nest
cancelling = section false (context_lock 5) (schedule_locks 1 2 9 true (3 ∷ []) wakes) done

-- Thread 0 has the vector of contexts as a reader.
abbrev one_in : (ts : ℕ → LockUser) × Reach 2 start 1 ts
unfolding before locks_of_all is_shareable
one_in = (
  _,
  then_step (begun refl) (enters 0 true (contexts_lock 1) done cancelling (omega arith) refl refl)
      refl,
)

-- Thread 1 has the lock of the tasks.
abbrev two_in : (ts : ℕ → LockUser) × Reach 2 start 2 ts
unfolding one_in is_free
two_in = (
  _,
  then_step one_in.1
      (enters 1 false (tasks_lock 1) (section true (timers_lock 1) done done) done (omega arith)
        refl refl)
      refl,
)
