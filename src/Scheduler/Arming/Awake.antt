-- ===== src/Scheduler/Arming/Awake.antt =====
-- No sleeping thread misses a timer.
use eva.Base.{
  minus_one, ℕ, ◌+◌, ◌<◌, ◌≤◌, ◌≡◌, refl, Bool, true, false, not, ◌&&◌, List, [], ◌∷◌, ◌==◌, ltb,
  if◌then◌else◌, mem, arith, u64, u64_max, update, Bool-cases, inl, inr, ◌⊎◌, some, is_empty, map,
}
use eva.Timer.{
  Timer, TimerManager, cmp, insert, erase, is_begin, get_expired_funcs, new_timer, get_next_time_ms,
}
use eva.Timer.Order.{
  insert-IsSorted, mem-insert, IsSorted, cmp_total, mem-AllAfter, mem-erase, erase-IsSorted,
  update-IsSorted,
}
use eva.Timer.Expired.{get_expired_funcs-IsSorted, get_expired_funcs_rest}
use eva.Timer.Updates.{add_timer_lem}
use eva.Scheduler.{Task, Scheduler, schedule_range, wait_timeout, func_task}
use eva.Scheduler.Queue.{schedule_range_lem}
use eva.Scheduler.Arming.{
  announce, arm_timer, refresh_timer, Change, arms, refreshes, cancels, expires, apply, apply_all,
}

-- A thread that went to sleep at the time `since` and sleeps until `until` is up before any timer is
-- due that was not due then, and at once if one was.
abbrev pub IsTimely : ℕ → ℕ → TimerManager → Type 0
IsTimely since until m =
    (q : ℕ)
    → mem q m.timers ≡ true
    → until ≤ (if ltb since (m.store q).next then (m.store q).next else since)

cmp-le : (h : ℕ → Timer) (p q : ℕ) → cmp h (some p) (some q) ≡ true → (h p).next ≤ (h q).next
unfolding cmp
cmp-le h p q e = ground arith

-- A new element that is not the first of the set has one before it.
insert_behind :
    (h : ℕ → Timer) (p : ℕ) (ts : List ℕ)
    → mem p ts ≡ false
    → is_begin p (insert h p ts) ≡ false
    → (q : ℕ) × (mem q ts ≡ true) × ((h q).next ≤ (h p).next)
unfolding insert
insert_behind h p [] m e = absurd (ground arith)
insert_behind h p (q ∷ qs) m e = elim (Bool-cases (cmp h (some p) (some q))) [
  | inl first ↦ absurd (ground arith)
  | inr later ↦ (q, ground arith, ground (arith, cmp-le h q p, cmp_total h p q))
]

next_time-le :
    (h : ℕ → Timer) (since q : ℕ) (ts : List ℕ)
    → IsSorted h ts
    → mem q ts ≡ true
    → since + get_next_time_ms (record { store = h; timers = ts }) since
      ≤ (if ltb since (h q).next then (h q).next else since)
unfolding get_next_time_ms
next_time-le h since q [] so m = absurd (ground arith)
next_time-le h since q (p ∷ ps) so m = ground (arith, cmp-le h p q, mem-AllAfter h p q ps so.0)

wait_timeout-IsTimely :
    (s : Scheduler) (since : ℕ)
    → IsSorted s.timers.store s.timers.timers
    → IsTimely since (since + wait_timeout s since) s.timers
unfolding wait_timeout
wait_timeout-IsTimely s since so q m =
    ground (arith, next_time-le s.timers.store since q s.timers.timers so m)

-- What a change may ask for: a new timer stands at an unused address, and the deadlines of the
-- timers that are put back do not pass 2 ^ 64.
abbrev pub IsAllowed : TimerManager → Change → Type 0
IsAllowed m (arms p now period func recurring) = mem p m.timers ≡ false
IsAllowed m (refreshes p now) = Unit {0}
IsAllowed m (cancels p) = Unit {0}
IsAllowed m (expires now) =
    (q : ℕ) → mem q m.timers ≡ true → (m.store q).next + (m.store q).period ≤ u64_max

-- The set is sorted; a byte was written to the pipe after it held n, or the sleeping thread is up in
-- time.
record Awake (since until n : ℕ) (s : Scheduler) : Type 0 where
  sorted : IsSorted s.timers.store s.timers.timers
  some_idle : 0 < s.idle_threads
  awake : (n < s.pipe) ⊎ ((n ≡ s.pipe) × IsTimely since until s.timers)

module _ (since until n : ℕ) where
  -- A timer of the set becomes due at another time, and is put in its place.
  announce-Awake :
      (s : Scheduler) (m : TimerManager) (p : ℕ)
      → mem p m.timers ≡ false
      → IsSorted m.store (insert m.store p m.timers)
      → 0 < s.idle_threads
      → (n < s.pipe) ⊎ ((n ≡ s.pipe) × IsTimely since until m)
      → Awake since until n (
          announce s
            (record m { timers = insert m.store p m.timers })
            (is_begin p (insert m.store p m.timers)))
  unfolding announce
  announce-Awake s m p new so idle (inl w) = record {
    sorted = ground arith;
    some_idle = ground arith;
    awake = inl (ground arith);
  }
  announce-Awake s m p new so idle (inr (e, t)) =
      elim (Bool-cases (is_begin p (insert m.store p m.timers))) [
        | inl first ↦
            rw first (record {
              sorted = ground arith;
              some_idle = ground arith;
              awake = inl (ground arith);
            })
        | inr behind ↦
            let (r, r_in, le) = insert_behind m.store p m.timers new behind in
            rw behind (record {
              sorted = so;
              some_idle = idle;
              awake =
                  inr (e, λ q h. ground (arith, mem-insert m.store p q m.timers, t q, t r r_in));
            })
      ]

  IsTimely-update :
      (m : TimerManager) (p : ℕ) (v : Timer) (ts : List ℕ)
      → mem p ts ≡ false
      → ((q : ℕ) → mem q ts ≡ true → mem q m.timers ≡ true)
      → IsTimely since until m
      → IsTimely since until (record { store = update m.store p v; timers = ts })
  IsTimely-update m p v ts new sub t q h = ground (arith, t q, sub q h, new)

  arms-Awake :
      (s : Scheduler) (p now period func : ℕ) (recurring : Bool)
      → mem p s.timers.timers ≡ false
      → Awake since until n s
      → Awake since until n (arm_timer s p now period func recurring)
  unfolding arm_timer
  arms-Awake s p now period func recurring new a =
      let t = new_timer now period func recurring in
      let m : TimerManager = record s.timers { store = update s.timers.store p t } in
      announce-Awake s m p new (add_timer_lem s.timers p now period func recurring new a.sorted).0
        a.some_idle
        (elim a.awake [
          | inl w ↦ inl w
          | inr (e, ti) ↦ inr (e, IsTimely-update s.timers p t s.timers.timers new (λ q h. h) ti)
        ])

  rest_in :
      (m : TimerManager) (p : ℕ)
      → IsSorted m.store m.timers
      → (q : ℕ) → mem q (erase m.store p m.timers).0 ≡ true
      → mem q m.timers ≡ true
  rest_in m p so q h = ground (arith, mem-erase m.store p q m.timers so)

  -- Timers that are taken away are missed by nobody.
  less-Awake :
      (s : Scheduler) (rest : List ℕ)
      → Awake since until n s
      → IsSorted s.timers.store rest
      → ((q : ℕ) → mem q rest ≡ true → mem q s.timers.timers ≡ true)
      → Awake since until n (record s { timers = record s.timers { timers = rest } })
  less-Awake s rest a so sub = record {
    sorted = so;
    some_idle = a.some_idle;
    awake = elim a.awake [ inl w ↦ inl w | inr (e, t) ↦ inr (e, λ q h. t q (sub q h)) ];
  }

  refreshes-Awake :
      (s : Scheduler) (p now : ℕ)
      → Awake since until n s
      → Awake since until n (refresh_timer s p now).0
  unfolding refresh_timer
  refreshes-Awake s p now a =
      let moved : Timer = record (s.timers.store p) {
        next = u64 (now + (s.timers.store p).period);
      } in
      let rest = (erase s.timers.store p s.timers.timers).0 in
      let m : TimerManager = record { store = update s.timers.store p moved; timers = rest } in
      let out : mem p rest ≡ false =
        ground (arith, mem-erase s.timers.store p p s.timers.timers a.sorted) in
      elim (Bool-cases (erase s.timers.store p s.timers.timers).1) [
        | inl hit ↦ rw hit (
            announce-Awake s m p out
              (insert-IsSorted m.store p rest (
                update-IsSorted s.timers.store p moved rest out
                  (erase-IsSorted s.timers.store p s.timers.timers a.sorted)))
              a.some_idle
              (elim a.awake [
                | inl w ↦ inl w
                | inr (e, t) ↦
                    inr
                      (e, IsTimely-update s.timers p moved rest out (rest_in s.timers p a.sorted) t)
              ]))
        | inr miss ↦ rw miss (
            less-Awake s rest a (erase-IsSorted s.timers.store p s.timers.timers a.sorted)
              (rest_in s.timers p a.sorted))
      ]

  -- Recurring timers are put back with a later deadline.
  expired-Awake :
      (s : Scheduler) (now : ℕ)
      → IsAllowed s.timers (expires now)
      → Awake since until n s
      → Awake since until n (record s { timers = (get_expired_funcs s.timers now []).0 })
  expired-Awake s now fits a = record {
    sorted = get_expired_funcs-IsSorted s.timers now [] a.sorted;
    some_idle = a.some_idle;
    awake = elim a.awake [
      | inl w ↦ inl w
      | inr (e, t) ↦
          inr (
            e,
            λ q h. ground (arith, get_expired_funcs_rest s.timers now [] q a.sorted, t q, fits q),
          )
    ];
  }

  schedule_range-Awake :
      (s : Scheduler) (new : List Task)
      → Awake since until n s
      → Awake since until n (schedule_range s new)
  schedule_range-Awake s new a = rw (schedule_range_lem s new) (record {
    sorted = a.sorted;
    some_idle = a.some_idle;
    awake = elim a.awake [
      | inl w ↦ inl (ground arith)
      | inr (e, t) ↦ elim (Bool-cases (is_empty s.tasks && not (s.idle_threads == 0))) [
        | inl b ↦ rw b (inl (omega arith))
        | inr b ↦ rw b (inr (e, t))
      ]
    ];
  })

  apply-Awake :
      (s : Scheduler) (c : Change)
      → IsAllowed s.timers c
      → Awake since until n s
      → Awake since until n (apply s c)
  unfolding apply
  apply-Awake s (arms p now period func recurring) ok_c a =
      arms-Awake s p now period func recurring ok_c a
  apply-Awake s (refreshes p now) ok_c a = refreshes-Awake s p now a
  apply-Awake s (cancels p) ok_c a =
      less-Awake s (erase s.timers.store p s.timers.timers).0 a
        (erase-IsSorted s.timers.store p s.timers.timers a.sorted) (rest_in s.timers p a.sorted)
  apply-Awake s (expires now) ok_c a =
      elim (Bool-cases (is_empty (get_expired_funcs s.timers now []).1)) [
        | inl e ↦ rw e (expired-Awake s now ok_c a)
        | inr e ↦ rw e (
            schedule_range-Awake (record s { timers = (get_expired_funcs s.timers now []).0 })
              (map (func_task minus_one) (get_expired_funcs s.timers now []).1)
              (expired-Awake s now ok_c a))
      ]

-- Every change is allowed where it is made.
abbrev pub AllAllowed : Scheduler → List Change → Type 0
AllAllowed s [] = Unit {0}
AllAllowed s (c ∷ cs) = IsAllowed s.timers c × AllAllowed (apply s c) cs

apply_all-Awake :
    (since until n : ℕ) (s : Scheduler) (cs : List Change)
    → AllAllowed s cs
    → Awake since until n s
    → Awake since until n (apply_all s cs)
unfolding apply_all
apply_all-Awake since until n s [] al a = a
apply_all-Awake since until n s (c ∷ cs) al a =
    apply_all-Awake since until n (apply s c) cs al.1 (apply-Awake since until n s c al.0 a)

-- While a thread sleeps in epoll_wait, with the timeout that it computed at the time `since` from a
-- sorted set of timers, let timers be added at unused addresses, refreshed, cancelled and, without a
-- deadline that passes 2 ^ 64, expired by other threads. Then a byte was written to the tickle pipe,
-- or the thread wakes up before any timer of the set is due that was not due when it went to sleep,
-- and at once if one was.
pub apply_all_awake :
    (s : Scheduler) (since : ℕ) (cs : List Change)
    → IsSorted s.timers.store s.timers.timers
    → 0 < s.idle_threads
    → AllAllowed s cs
    → (s.pipe < (apply_all s cs).pipe)
      ⊎ ((q : ℕ)
          → mem q (apply_all s cs).timers.timers ≡ true
          → let due = ((apply_all s cs).timers.store q).next in
            since + wait_timeout s since ≤ (if ltb since due then due else since))
apply_all_awake s since cs so idle al =
    let a = apply_all-Awake since (since + wait_timeout s since) s.pipe s cs al (record {
      sorted = so;
      some_idle = idle;
      awake = inr (refl, wait_timeout-IsTimely s since so);
    }) in
    elim a.awake [ inl w ↦ inl w | inr (e, t) ↦ inr t ]
