-- ===== src/Thread/Semaphore.antt =====
-- src/semaphore.cpp: a counting semaphore over sem_t, as sem_overview(7) describes it.
use eva.Base.{ℕ, ◌+◌, ◌-◌, ◌≡◌, Bool, false, List, [], ◌∷◌, ltb, ◌==◌, if◌then◌else◌, arith}

pub record Semaphore : Type 0 where
  pub count : ℕ

-- What a call does: it returns, it throws, or it blocks.
pub data Result : Type 0 where
  returns : Semaphore → Result
  throws : Result
  blocks : Result

-- SEM_VALUE_MAX; sem_init and sem_post fail where the count would pass it.
abbrev pub sem_value_max : ℕ
sem_value_max = 2147483647

unfoldable pub new_semaphore : ℕ → Result
new_semaphore count = if ltb sem_value_max count then throws else returns (record { count = count })

-- wait(); sem_wait fails where a signal handler interrupts it.
unfoldable pub wait_on : Bool → Semaphore → Result
wait_on interrupted s =
    if interrupted
    then throws
    else if s.count == 0
    then blocks
    else returns (record { count = s.count - 1 })

unfoldable pub notify : Semaphore → Result
notify s = if s.count == sem_value_max then throws else returns (record { count = s.count + 1 })

-- A wait that is not interrupted, and a notify; the calls that are made one after another.
pub data Call : Type 0 where
  waits notifies : Call

unfoldable pub call_one : Call → Semaphore → Result
unfolding wait_on notify
call_one waits s = wait_on false s
call_one notifies s = notify s

unfoldable pub call_all : List Call → Semaphore → Result
unfolding call_one
call_all [] s = returns s
call_all (c ∷ cs) s = elim (call_one c s) [
  | returns s' ↦ call_all cs s'
  | throws ↦ throws
  | blocks ↦ blocks
]

abbrev pub number : Call → List Call → ℕ
number c [] = 0
number waits (waits ∷ cs) = number waits cs + 1
number waits (notifies ∷ cs) = number waits cs
number notifies (waits ∷ cs) = number notifies cs
number notifies (notifies ∷ cs) = number notifies cs + 1

-- Calls that all return leave the count that the semaphore had, with one more for each notify and one
-- less for each wait; so no more waits return than there were notifies and units at the beginning.
pub call_all_balance :
    (cs : List Call) (s t : Semaphore)
    → call_all cs s ≡ returns t
    → t.count + number waits cs ≡ s.count + number notifies cs
unfolding call_all
call_all_balance [] s t h = ground arith
call_all_balance (waits ∷ cs) s t h =
    ground (arith, call_all_balance cs (record { count = s.count - 1 }) t)
call_all_balance (notifies ∷ cs) s t h =
    ground (arith, call_all_balance cs (record { count = s.count + 1 }) t)
