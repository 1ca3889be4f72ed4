-- ===== src/Mutex.antt =====
-- src/mutex.h: Mutex with the thread that it notes, and the guards of RWMutex.
-- The pthread locks are what their manual pages say: a lock is taken only while no one holds it in a
-- way that excludes it, and a call that has to wait does not return, which is `none` for the guards.
pub mod Owner
pub mod Guards
pub mod Sections
pub mod Sharing
mod Tests
use eva.Base.{
  ℕ, ◌+◌, ◌-◌, ◌≡◌, Bool, true, false, not, List, [], ◌∷◌, Option, none, some, ltb, ◌==◌,
  if◌then◌else◌, update, ◌<◌,
}

-- How far a thread is in lock and unlock: it has not called them, it has the pthread mutex and has not
-- noted itself, it is between the two calls, or it has cleared m_thread and still has the mutex.
pub data Place : Type 0 where
  outside acquired inside leaving : Place

-- `holder` has the pthread mutex; `thread` is m_thread.
pub record Mutex : Type 0 where
  pub holder : Option ℕ
  pub thread : ℕ
  pub place : ℕ → Place

unfoldable pub new_mutex : Mutex
new_mutex = record { holder = none; thread = 0; place = λ t. outside }

abbrev pub move : Mutex → ℕ → Place → Mutex
move m t p = record m { place = update m.place t p }

-- What the two halves of lock and of unlock leave.
abbrev pub took : Mutex → ℕ → Mutex
took m t = record (move m t acquired) { holder = some t }

abbrev pub noted : Mutex → ℕ → Mutex
noted m t = record (move m t inside) { thread = t }

abbrev pub cleared : Mutex → ℕ → Mutex
cleared m t = record (move m t leaving) { thread = 0 }

abbrev pub freed : Mutex → ℕ → Mutex
freed m t = record (move m t outside) { holder = none }

-- The two halves of lock and of unlock, of which each is one access to the shared memory. A thread id
-- is not 0.
pub data Step : Mutex → Mutex → Type 0 where
  lock_mutex : (m : Mutex) (t : ℕ) → m.place t ≡ outside → m.holder ≡ none → Step m (took m t)
  note_thread : (m : Mutex) (t : ℕ) → m.place t ≡ acquired → 0 < t → Step m (noted m t)
  clear_thread : (m : Mutex) (t : ℕ) → m.place t ≡ inside → Step m (cleared m t)
  unlock_mutex : (m : Mutex) (t : ℕ) → m.place t ≡ leaving → Step m (freed m t)

pub data Reach : Mutex → Type 0 where
  made : Reach new_mutex
  then_step : {m n : Mutex} → Reach m → Step m n → Reach n

-- isLockedByThisThread, called by t.
unfoldable pub is_locked_by : Mutex → ℕ → Bool
is_locked_by m t = m.thread == t

-- A pthread_rwlock_t.
pub record RwLock : Type 0 where
  pub readers : ℕ
  pub writer : Bool

unfoldable pub rdlock : RwLock → Option RwLock
rdlock l = if l.writer then none else some (record l { readers = l.readers + 1 })

-- pthread_rwlock_wrlock: where the calling thread is the writer itself it may fail with EDEADLK, which
-- RWMutex::wrlock does not look at, or wait for ever. `edeadlk` says that it is and that it fails.
unfoldable pub wrlock : Bool → RwLock → Option RwLock
wrlock edeadlk l =
    if l.writer
    then if edeadlk then some l else none
    else if ltb 0 l.readers
    then none
    else some (record l { writer = true })

unfoldable pub rw_unlock : RwLock → RwLock
rw_unlock l = if l.writer then record l { writer = false } else record l { readers = l.readers - 1 }

-- The calls on a guard before its end.
pub data GuardCall : Type 0 where
  lock unlock : GuardCall

-- Taking the lock; the second flag tells a MutexWriteGuard.
abbrev pub take : Bool → Bool → RwLock → Option RwLock
unfolding rdlock wrlock
take edeadlk false l = rdlock l
take edeadlk true l = wrlock edeadlk l

abbrev pub now_locked : Option RwLock → Option (RwLock × Bool)
now_locked none = none
now_locked (some l) = some (l, true)

-- A call on a guard, which is a lock and the guard's m_locked.
unfoldable pub guard_call : Bool → Bool → GuardCall → RwLock × Bool → Option (RwLock × Bool)
unfolding take rw_unlock
guard_call edeadlk w lock (l, true) = some (l, true)
guard_call edeadlk w lock (l, false) = now_locked (take edeadlk w l)
guard_call edeadlk w unlock (l, true) = some (rw_unlock l, false)
guard_call edeadlk w unlock (l, false) = some (l, false)

-- The destructor, behind the calls.
unfoldable pub guard_calls : Bool → Bool → List GuardCall → RwLock × Bool → Option RwLock
unfolding guard_call
guard_calls edeadlk w [] (l, true) = some (rw_unlock l)
guard_calls edeadlk w [] (l, false) = some l
guard_calls edeadlk w (c ∷ cs) g = elim (guard_call edeadlk w c g) [
  | none ↦ none
  | some g' ↦ guard_calls edeadlk w cs g'
]

abbrev pub entered : Bool → Bool → List GuardCall → Bool → Option RwLock → Option RwLock
unfolding guard_calls
entered edeadlk w cs flag none = none
entered edeadlk w cs flag (some l) = guard_calls edeadlk w cs (l, flag)

-- The life of a MutexReadGuard, and of a MutexWriteGuard whose m_locked is not set by the constructor:
-- garbage is what the memory holds. No other guard uses the lock meanwhile, so that a writer is the
-- guard's own thread.
unfoldable pub read_guard : Bool → List GuardCall → RwLock → Option RwLock
unfolding entered
read_guard edeadlk cs l = entered edeadlk false cs true (rdlock l)

unfoldable pub write_guard : Bool → Bool → List GuardCall → RwLock → Option RwLock
unfolding entered
write_guard edeadlk garbage cs l = entered edeadlk true cs garbage (wrlock edeadlk l)
