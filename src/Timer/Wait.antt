-- ===== src/Timer/Wait.antt =====
-- getNextTimeMs: how long the idle loop waits for the first timer.
use Prim.Native.Nat.{min}
use eva.Base.{
  ℕ, ◌+◌, ◌<◌, ◌≤◌, ◌≡◌, ◌≢◌, ◌↔◌, refl, Bool, true, false, List, [], ◌∷◌, mem, arith, u64_max,
  update, Bool-cases, inl, inr, leb,
}
use eva.Timer.{
  Timer, TimerManager, insert, new_timer, add_timer, get_next_time_ms, get_expired_funcs, is_begin,
}
use eva.Timer.Order.{AllAfter, IsSorted, AllAfter-mono, update-IsSorted}
use eva.Timer.Expiry.{AllAfter-AllPending, take_expired-AllPending}

expired_at :
    (h : ℕ → Timer) (now t : ℕ) (ts : List ℕ)
    → IsSorted h ts
    → ts ≢ []
    → now ≤ t
    → ((get_expired_funcs (record { store = h; timers = ts }) t []).1 ≡ [])
      ↔ (t < now + get_next_time_ms (record { store = h; timers = ts }) now)
unfolding get_expired_funcs get_next_time_ms
expired_at h now t [] s n le = absurd (n refl)
expired_at h now t (p ∷ ps) s n le = elim (Bool-cases (leb (h p).next t)) [
  | inl due ↦ (ground arith, ground arith)
  | inr later ↦
      rw
        (take_expired-AllPending h t (p ∷ ps)
          (ground arith, AllAfter-AllPending h t p ps (ground arith) s.0))
        (ground arith, ground arith)
]

-- With a timer in the sorted set, none expires before the wait that getNextTimeMs gives has passed, and one
-- does from then on.
pub get_next_time_ms_exact :
    (m : TimerManager) (now t : ℕ)
    → IsSorted m.store m.timers
    → m.timers ≢ []
    → now ≤ t
    → ((get_expired_funcs m t []).1 ≡ []) ↔ (t < now + get_next_time_ms m now)
get_next_time_ms_exact m now t s n le = expired_at m.store now t m.timers s n le

wait-insert :
    (h : ℕ → Timer) (p now period func : ℕ) (recurring : Bool) (ts : List ℕ)
    → mem p ts ≡ false
    → now + period ≤ u64_max
    → get_next_time_ms
        (add_timer (record { store = h; timers = ts }) p now period func recurring).0
        now
      ≡ min (get_next_time_ms (record { store = h; timers = ts }) now) period
unfolding add_timer get_next_time_ms
wait-insert h p now period func recurring [] new fits = ground arith
wait-insert h p now period func recurring (t ∷ ts) new fits = ground arith

-- A timer at an address outside the set, whose deadline does not pass 2 ^ 64 - 1, shortens the wait
-- to its period if that is less, and leaves it otherwise.
pub get_next_time_ms-add_timer :
    (m : TimerManager) (p now period func : ℕ) (recurring : Bool)
    → mem p m.timers ≡ false
    → now + period ≤ u64_max
    → get_next_time_ms (add_timer m p now period func recurring).0 now
      ≡ min (get_next_time_ms m now) period
get_next_time_ms-add_timer m p now period func recurring new fits =
    wait-insert m.store p now period func recurring m.timers new fits

is_begin-insert :
    (h : ℕ → Timer) (p : ℕ) (ts : List ℕ)
    → mem p ts ≡ false
    → IsSorted h ts
    → (is_begin p (insert h p ts) ≡ true) ↔ AllAfter h p ts
unfolding insert
is_begin-insert h p [] new s = (λ e. tt, ground arith)
is_begin-insert h p (t ∷ ts) new s = (ground (arith, AllAfter-mono h p t ts), ground arith)

-- At an address outside a sorted set, addTimer announces a new first timer exactly when the new timer
-- comes before all that are in the set.
pub add_timer_changed :
    (m : TimerManager) (p now period func : ℕ) (recurring : Bool)
    → mem p m.timers ≡ false
    → IsSorted m.store m.timers
    → ((add_timer m p now period func recurring).1 ≡ true)
      ↔ AllAfter (add_timer m p now period func recurring).0.store p m.timers
unfolding add_timer
add_timer_changed m p now period func recurring new s =
    is_begin-insert (update m.store p (new_timer now period func recurring)) p m.timers new
      (update-IsSorted m.store p (new_timer now period func recurring) m.timers new s)
