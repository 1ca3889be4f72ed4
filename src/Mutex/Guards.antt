-- ===== src/Mutex/Guards.antt =====
-- MutexReadGuard and MutexWriteGuard of src/mutex.h: what they leave of the lock.
use eva.Base.{
  ℕ, ◌+◌, ◌-◌, ◌≡◌, refl, Bool, true, false, List, [], ◌∷◌, none, some, if◌then◌else◌, arith,
}
use eva.Mutex.{RwLock, GuardCall, lock, unlock, guard_calls, read_guard, write_guard}

abbrev pub calls_lock : List GuardCall → Bool
calls_lock [] = false
calls_lock (lock ∷ cs) = true
calls_lock (unlock ∷ cs) = calls_lock cs

-- The lock with n readers, and with a writer.
abbrev read_locked : ℕ → RwLock
read_locked n = record { readers = n; writer = false }

abbrev pub write_locked : RwLock
write_locked = record { readers = 0; writer = true }

mutual
  unfolding guard_calls

  read_held :
      (d : Bool) (cs : List GuardCall) (n : ℕ)
      → guard_calls d false cs (read_locked (n + 1), true) ≡ some (read_locked n)
  read_held d [] n = ground arith
  read_held d (lock ∷ cs) n = read_held d cs n
  read_held d (unlock ∷ cs) n = let e : n + 1 - 1 ≡ n = omega arith in rw e (read_left d cs n)

  read_left :
      (d : Bool) (cs : List GuardCall) (n : ℕ)
      → guard_calls d false cs (read_locked n, false) ≡ some (read_locked n)
  read_left d [] n = refl
  read_left d (lock ∷ cs) n = read_held d cs n
  read_left d (unlock ∷ cs) n = read_left d cs n

mutual
  unfolding guard_calls

  write_held :
      (d : Bool) (cs : List GuardCall)
      → guard_calls d true cs (write_locked, true) ≡ some (read_locked 0)
  write_held d [] = refl
  write_held d (lock ∷ cs) = write_held d cs
  write_held d (unlock ∷ cs) = write_left d cs

  write_left :
      (d : Bool) (cs : List GuardCall)
      → guard_calls d true cs (read_locked 0, false) ≡ some (read_locked 0)
  write_left d [] = refl
  write_left d (lock ∷ cs) = write_held d cs
  write_left d (unlock ∷ cs) = write_left d cs

write_unnoted :
    (d : Bool) (cs : List GuardCall)
    → guard_calls d true cs (write_locked, false)
      ≡ (if calls_lock cs then (if d then some (read_locked 0) else none) else some write_locked)
unfolding guard_calls
write_unnoted d [] = refl
write_unnoted true (lock ∷ cs) = write_held true cs
write_unnoted false (lock ∷ cs) = refl
write_unnoted d (unlock ∷ cs) = write_unnoted d cs

-- With any calls of lock and unlock on them, a MutexReadGuard on a lock without a writer and a
-- MutexWriteGuard on a free lock whose m_locked happens to be true leave the lock as they found it. A
-- MutexWriteGuard whose m_locked happens to be false leaves the lock held by a writer that is gone if
-- lock is not called on it; if it is, then where the system fails a wrlock by the writer with EDEADLK
-- the guard leaves the lock free, and where it does not the guard waits for itself for ever.
pub guards_lem :
    (d : Bool) (cs : List GuardCall) (n : ℕ)
    → (read_guard d cs (record { readers = n; writer = false })
        ≡ some (record { readers = n; writer = false }))
      × (write_guard d true cs (record { readers = 0; writer = false })
          ≡ some (record { readers = 0; writer = false }))
      × (write_guard d false cs (record { readers = 0; writer = false }) ≡ (
          if calls_lock cs
          then (if d then some (record { readers = 0; writer = false }) else none)
          else some write_locked))
unfolding read_guard write_guard
guards_lem d cs n = (read_held d cs n, write_held d cs, write_unnoted d cs)
