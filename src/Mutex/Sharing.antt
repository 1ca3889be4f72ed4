-- ===== src/Mutex/Sharing.antt =====
-- MutexReadGuard and MutexWriteGuard of src/mutex.h on one RWMutex, in several threads, with a guard at
-- most in each. Where m_locked begins as true, the writer itself calls wrlock never: the flag for its
-- EDEADLK is false.
pub mod Tallied
pub mod Excluded
mod Tests
use eva.Base.{ℕ, ◌<◌, Bool, true, false, List, [], ◌∷◌, Option, none, some, if◌then◌else◌, update}
use eva.Mutex.{RwLock, GuardCall, take, guard_call, guard_calls}

-- What a thread does: it makes a guard, a MutexWriteGuard where the flag says so, it calls lock or
-- unlock on its guard, or it comes to the end of the guard's scope. `garbage` is what the memory of
-- m_locked holds before the constructor.
pub data Action : Type 0 where
  makes : ℕ → Bool → Bool → Action
  calls : ℕ → GuardCall → Action
  ends : ℕ → Action

-- The guard of each thread, if it has one: whether it is a MutexWriteGuard, and its m_locked.
pub record Sharing : Type 0 where
  pub lock : RwLock
  pub guards : ℕ → Option (Bool × Bool)

unfoldable pub new_sharing : Sharing
new_sharing = record { lock = record { readers = 0; writer = false }; guards = λ t. none }

abbrev pub with_guard : Sharing → ℕ → RwLock → Option (Bool × Bool) → Sharing
with_guard s t l g = record s { lock = l; guards = update s.guards t g }

-- The constructor of MutexWriteGuard leaves m_locked as it was.
abbrev pub locked_flag : Bool → Bool → Bool
locked_flag true garbage = garbage
locked_flag false garbage = true

abbrev pub guard_made : Sharing → ℕ → Bool → Bool → Option RwLock → Option Sharing
guard_made s t w garbage none = none
guard_made s t w garbage (some l) = some (with_guard s t l (some (w, locked_flag w garbage)))

abbrev pub guard_called : Sharing → ℕ → Bool → Option (RwLock × Bool) → Option Sharing
guard_called s t w none = none
guard_called s t w (some (l, k)) = some (with_guard s t l (some (w, k)))

abbrev pub guard_gone : Sharing → ℕ → Option RwLock → Option Sharing
guard_gone s t none = none
guard_gone s t (some l) = some (with_guard s t l none)

abbrev pub act_on : Sharing → Action → Option (Bool × Bool) → Option Sharing
unfolding guard_call guard_calls
act_on s (makes t w garbage) none = guard_made s t w garbage (take false w s.lock)
act_on s (makes t w garbage) (some g) = none
act_on s (calls t c) none = none
act_on s (calls t c) (some (w, k)) = guard_called s t w (guard_call false w c (s.lock, k))
act_on s (ends t) none = none
act_on s (ends t) (some (w, k)) = guard_gone s t (guard_calls false w [] (s.lock, k))

abbrev pub thread_of : Action → ℕ
thread_of (makes t w garbage) = t
thread_of (calls t c) = t
thread_of (ends t) = t

-- One action; `none` if the thread has to wait for the lock, or has no guard, or has one already.
unfoldable pub act : Sharing → Action → Option Sharing
unfolding act_on
act s a = act_on s a (s.guards (thread_of a))

-- Actions of any threads, one after another.
unfoldable pub acts : Sharing → List Action → Option Sharing
unfolding act
acts s [] = some s
acts s (a ∷ rest) = elim (act s a) [ none ↦ none | some s' ↦ acts s' rest ]
