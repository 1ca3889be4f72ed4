-- ===== src/Util/Clock.antt =====
-- The clock of the timers against the time of the system.
use eva.Base.{
  Bool-cases, inl, inr, false, ℕ, ◌+◌, ◌*◌, ◌/◌, ◌<◌, ◌≤◌, ◌≡◌, Bool, true, leb, u64, u64_max,
  arith,
}
use eva.Timer.{new_timer}
use eva.Util.{TimeVal, get_current_ms}

abbrev pub micros : TimeVal → ℕ
micros tv = tv.sec * 1000000 + tv.usec

get_current_ms-eq :
    (tv : TimeVal) → tv.usec < 1000000 → micros tv ≤ u64_max → get_current_ms tv ≡ micros tv / 1000
unfolding get_current_ms
get_current_ms-eq tv v b = omega arith

-- Whether a timer with the period, added at t1, is due at t2, against the time that has passed.
abbrev pub IsOnTime : TimeVal → TimeVal → ℕ → Bool → Type 0
IsOnTime t1 t2 period true = micros t1 + period * 1000 < micros t2 + 1000
IsOnTime t1 t2 period false = micros t2 < micros t1 + period * 1000

-- For a timer that is added at the time t1 with the period in milliseconds, where no number passes
-- 2 ^ 64: when it is due, less than a millisecond of the period is left; when it is not, the period
-- has not passed.
due_lem :
    (t1 t2 : TimeVal) (period func : ℕ) (recurring : Bool)
    → t1.usec < 1000000
    → t2.usec < 1000000
    → micros t1 + period * 1000 ≤ u64_max
    → micros t2 ≤ u64_max
    → IsOnTime t1 t2 period
        (leb (new_timer (get_current_ms t1) period func recurring).next (get_current_ms t2))
unfolding new_timer
due_lem t1 t2 period func recurring v1 v2 b1 b2 =
    let e1 = get_current_ms-eq t1 v1 (omega arith) in
    let e2 = get_current_ms-eq t2 v2 b2 in
    rw (e1, e2)
      (elim (Bool-cases (leb (u64 (micros t1 / 1000 + period)) (micros t2 / 1000))) [
        | inl e ↦ rw e (ground arith)
        | inr e ↦ rw e (ground arith)
      ])
