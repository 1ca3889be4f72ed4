-- ===== src/Mutex/Sharing/Excluded.antt =====
-- Whom the guards of an RWMutex of src/mutex.h keep out.
use native.Mathlib.Decide.{dec_lt}
use eva.Base.{
  ℕ, ◌≤◌, ◌<◌, ◌≡◌, ◌≢◌, Bool, true, false, List, none, some, arith, sum_below, sum_below-eq-zero,
  weight_two-le-sum_below,
}
use eva.Mutex.Sharing.{Action, Sharing, new_sharing, acts}
use eva.Mutex.Sharing.Tallied.{
  is_reading, is_writing, AllLucky, as_number, IsTallied, held_read, held_write,
  new_sharing-IsTallied, acts-IsTallied,
}

as_number-le : (b : Bool) → as_number b ≤ 1
as_number-le true = omega arith
as_number-le false = omega arith

module _ (n : ℕ) (s : Sharing) (v : IsTallied n s) (t u : ℕ) (lt : t < n) (lu : u < n) where
  -- A MutexWriteGuard has the lock alone.
  no_two_writers : t < u → s.guards t ≡ some (true, true) → s.guards u ≢ some (true, true)
  no_two_writers d h k =
      let a : is_writing (s.guards t) ≡ 1 = rw h in
      let b : is_writing (s.guards u) ≡ 1 = rw k in
      omega (
        arith,
        v.writing,
        as_number-le s.lock.writer,
        weight_two-le-sum_below is_writing n s.guards t u d lu,
      )

  no_reader : s.guards t ≡ some (true, true) → s.guards u ≢ some (false, true)
  no_reader h k =
      let a : is_writing (s.guards t) ≡ 1 = rw h in
      let b : is_reading (s.guards u) ≡ 1 = rw k in
      let x : 1 ≤ as_number s.lock.writer = omega (arith, held_write n s t lt v) in
      let y : 1 ≤ s.lock.readers = omega (arith, held_read n s u lu v) in ground (arith, v.apart)

excluded :
    (n : ℕ) (s : Sharing) (t u : ℕ) (w : Bool)
    → IsTallied n s
    → t < n
    → u < n
    → u ≢ t
    → s.guards t ≡ some (true, true)
    → s.guards u ≢ some (w, true)
excluded n s t u false v lt lu d h k = no_reader n s v t u lt lu h k
excluded n s t u true v lt lu d h k = elim (dec_lt t u) [
  | yes p ↦ no_two_writers n s v t u lt lu p h k
  | no p ↦ no_two_writers n s v u t lu lt (omega arith) k h
]

all_free :
    (n : ℕ) (s : Sharing)
    → IsTallied n s
    → ((t : ℕ) → s.guards t ≡ none)
    → s.lock ≡ record { readers = 0; writer = false }
all_free n s v h =
    let a = sum_below-eq-zero is_reading n s.guards (λ i. rw (h i)) in
    let b = sum_below-eq-zero is_writing n s.guards (λ i. rw (h i)) in
    ground (arith, v.reading, v.writing)

-- Threads below n make and destroy MutexReadGuards and MutexWriteGuards on one RWMutex and call lock
-- and unlock on them, in any interleaving, one guard a thread at a time, and the memory of m_locked
-- happens to be true wherever a MutexWriteGuard is made. Then a thread whose MutexWriteGuard has the
-- lock shares it with no other thread; the lock counts the MutexReadGuards that have it, and has a
-- writer exactly where a MutexWriteGuard has it; and where every guard is gone the lock is free.
pub rw_guards_lem :
    (n : ℕ) (list : List Action) (s : Sharing)
    → AllLucky n list
    → acts new_sharing list ≡ some s
    → ((t u : ℕ) (w : Bool)
        → t < n
        → u < n
        → u ≢ t
        → s.guards t ≡ some (true, true)
        → s.guards u ≢ some (w, true))
      × (s.lock.readers ≡ sum_below is_reading n s.guards)
      × (as_number s.lock.writer ≡ sum_below is_writing n s.guards)
      × (((t : ℕ) → s.guards t ≡ none) → s.lock ≡ record { readers = 0; writer = false })
rw_guards_lem n list s l e =
    let v = acts-IsTallied n new_sharing s list l (new_sharing-IsTallied n) e in
    (
      (λ t u w lt lu d h. excluded n s t u w v lt lu d h),
      v.reading,
      v.writing,
      (λ h. all_free n s v h),
    )
