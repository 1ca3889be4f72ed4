-- ===== src/Locks/Progress.antt =====
-- Threads that run the operations of src/ never stand still because of their locks.
use eva.Base.{ℕ, ◌<◌, ◌≡◌, Bool, List, [], ◌∷◌}
use eva.Locks.{done}
use eva.Locks.Operations.{LockCall, locks_of_all}
use eva.Locks.Ordered.{IsOrdered}
use eva.Locks.Threads.{Frame, LockUser, Step}

-- The rank of the lock of the innermost section.
abbrev top : List Frame → ℕ
top [] = 0
top (f ∷ fs) = f.lock.rank

abbrev Stacked : List Frame → Type 0
Stacked [] = Unit {0}
Stacked (f ∷ fs) = (top fs < f.lock.rank) × IsOrdered (top fs) f.rest × Stacked fs

record IsNested (t : LockUser) : Type 0 where
  ordered : IsOrdered (top t.frames) t.now
  stacked : Stacked t.frames

abbrev CanStep : ℕ → (ℕ → LockUser) → Type 0
CanStep n ts = (us : ℕ → LockUser) × Step n ts us

-- A thread that has come to the end of all its sections.
abbrev pub HasEnded : LockUser → Type 0
HasEnded t = (t.now ≡ done) × (t.frames ≡ [])

-- n threads, each before the first of its operations.
unfoldable pub before : ℕ → ℕ → List ℕ → (ℕ → List (ℕ × Bool × LockCall)) → ℕ → LockUser
before g f appenders ops i = record { now = locks_of_all g f appenders (ops i); frames = [] }
