-- ===== src/Hook/Sleep.antt =====
-- src/hook.cpp: sleep, usleep and nanosleep, which add a timer that schedules the fiber again and
-- yield.
use eva.Base.{
  ℕ, ◌+◌, ◌*◌, ◌/◌, ◌≤◌, ◌<◌, ◌≡◌, refl, Bool, false, ltb, if◌then◌else◌, u32, u64, arith, ◌∙◌,
  ==_self,
}
use eva.Timer.{Func, TimerManager, add_timer}

-- What a thread asks for: seconds, microseconds, or seconds and nanoseconds.
pub data Nap : Type 0 where
  sleep usleep : ℕ → Nap
  nanosleep : ℕ → ℕ → Nap

-- The conversion of an int to uint64_t, for an int that was computed modulo 2^32.
unfoldable pub int_to_u64 : ℕ → ℕ
int_to_u64 n = if ltb n 2147483648 then n else n + 18446744069414584320

-- The milliseconds that are handed to addTimer: an unsigned product of 32 bits in sleep, and an int
-- in nanosleep.
unfoldable pub nap_ms : Nap → ℕ
unfolding int_to_u64
nap_ms (sleep seconds) = u32 (seconds * 1000)
nap_ms (usleep usec) = usec / 1000
nap_ms (nanosleep sec nsec) = int_to_u64 (u32 (sec * 1000 + nsec / 1000 / 1000))

-- The hooked call up to its Yield, at the time now: p is the address of the timer, func the number of
-- the function that schedules the fiber. The result is 0.
unfoldable pub nap : TimerManager → ℕ → ℕ → Func → Nap → TimerManager × Bool
unfolding nap_ms
nap m p now func n = add_timer m p now (nap_ms n) func false

-- The milliseconds that the caller asks for, rounded down.
abbrev pub asked : Nap → ℕ
asked (sleep seconds) = seconds * 1000
asked (usleep usec) = usec / 1000
asked (nanosleep sec nsec) = sec * 1000 + nsec / 1000000

nap_ms_exact : (n : Nap) → asked n < 2147483648 → nap_ms n ≡ asked n
unfolding nap_ms
nap_ms_exact (sleep seconds) h = omega arith
nap_ms_exact (usleep usec) h = refl
nap_ms_exact (nanosleep sec nsec) h = ground arith

sleep_next :
    (now seconds : ℕ)
    → now + seconds * 1000 < 18446744073709551616
    → u64 (now + nap_ms (sleep seconds)) ≡ now + u32 (seconds * 1000)
unfolding nap_ms
sleep_next now seconds h = omega arith

nap_next :
    (m : TimerManager) (p now : ℕ) (func : Func) (n : Nap)
    → ((nap m p now func n).0.store p).next ≡ u64 (now + nap_ms n)
unfolding nap add_timer
nap_next m p now func n = rw (==_self p)

-- On a clock that does not wrap: below 2^31 ms each of the three calls sets its timer to the asked
-- time from now on; a sleep of any length sets it to the asked time modulo 2^32, so that from 2^32 ms
-- on the fiber is woken before its time.
pub nap_lem :
    (m : TimerManager) (p now : ℕ) (func : Func) (n : Nap) (seconds : ℕ)
    → now + asked n < 18446744073709551616
    → now + seconds * 1000 < 18446744073709551616
    → ((asked n < 2147483648) → ((nap m p now func n).0.store p).next ≡ now + asked n)
      × (((nap m p now func (sleep seconds)).0.store p).next ≡ now + u32 (seconds * 1000))
      × ((4294967296 ≤ seconds * 1000)
          → ((nap m p now func (sleep seconds)).0.store p).next < now + seconds * 1000)
nap_lem m p now func n seconds h h' =
    let e : ((nap m p now func (sleep seconds)).0.store p).next ≡ now + u32 (seconds * 1000) =
      nap_next m p now func (sleep seconds) ∙ sleep_next now seconds h' in
    (
      (λ a. nap_next m p now func n ∙ rw (nap_ms_exact n a) (omega arith)),
      e,
      (λ l. omega (arith, e)),
    )
