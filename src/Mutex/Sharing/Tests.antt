-- ===== src/Mutex/Sharing/Tests.antt =====
-- The guards of an RWMutex of src/mutex.h on concrete inputs.
use eva.Base.{
  ℕ, ◌<◌, ◌≡◌, ◌≢◌, refl, Bool, true, false, List, update, [], ◌∷◌, none, some, arith, sum_below,
}
use eva.Mutex.{unlock, rdlock, wrlock}
use eva.Mutex.Sharing.{Action, makes, calls, ends, Sharing, new_sharing, act, acts}
use eva.Mutex.Sharing.Tallied.{AllLucky, is_reading, is_writing, as_number}
use eva.Mutex.Sharing.Excluded.{rw_guards_lem}

-- Thread 2 reads and gives the lock up, thread 0 writes, thread 1 has come to an end.
abbrev made : List Action
made = makes 2 false false ∷ makes 1 false false ∷ calls 2 unlock ∷ ends 1 ∷ makes 0 true true ∷ []

abbrev writing_0 : Sharing
writing_0 = record {
  lock = record { readers = 0; writer = true };
  guards =
      update
        (update
          (update (update (update (λ t. none) 2 (some (false, true))) 1 (some (false, true))) 2
            (some (false, false)))
          1 none)
        0 (some (true, true));
}

made_runs : acts new_sharing made ≡ some writing_0
unfolding acts new_sharing act rdlock wrlock
made_runs = refl

-- A MutexWriteGuard waits while a MutexReadGuard has the lock.
writer_waits : acts new_sharing (makes 2 false false ∷ makes 0 true true ∷ []) ≡ none
unfolding acts new_sharing act rdlock wrlock
writer_waits = refl

made_lucky : AllLucky 3 made
made_lucky = (
  omega arith,
  refl,
  (omega arith, refl, (omega arith, refl, (omega arith, refl, (omega arith, refl, tt)))),
)

rw_guards_example :
    ((t u : ℕ) (w : Bool)
      → t < 3
      → u < 3
      → u ≢ t
      → writing_0.guards t ≡ some (true, true)
      → writing_0.guards u ≢ some (w, true))
    × (writing_0.lock.readers ≡ sum_below is_reading 3 writing_0.guards)
    × (as_number writing_0.lock.writer ≡ sum_below is_writing 3 writing_0.guards)
    × (((t : ℕ) → writing_0.guards t ≡ none)
        → writing_0.lock ≡ record { readers = 0; writer = false })
rw_guards_example = rw_guards_lem 3 made writing_0 made_lucky made_runs
