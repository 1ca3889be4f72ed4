-- ===== src/Timer/Updates.antt =====
-- addTimer, cancel and refresh.
use eva.Base.{
  ℕ, ◌+◌, ◌≡◌, refl, Bool, false, not, ◌&&◌, ◌||◌, ◌==◌, if◌then◌else◌, mem, arith, u64, update,
  Bool-cases, inl, inr,
}
use eva.Timer.{Timer, TimerManager, erase, new_timer, add_timer, cancel, refresh}
use eva.Timer.Order.{
  IsSorted, mem-insert, insert-IsSorted, erase_hit, mem-erase, erase-IsSorted, update-IsSorted,
}

-- At an address outside a sorted set: the new timer is added with what it was given, expires a
-- period from now (modulo 2 ^ 64), and no other timer is changed; the set stays sorted.
pub add_timer_lem :
    (m : TimerManager) (p now period func : ℕ) (recurring : Bool)
    → mem p m.timers ≡ false
    → IsSorted m.store m.timers
    → let m' = (add_timer m p now period func recurring).0 in
      IsSorted m'.store m'.timers
      × ((q : ℕ) → mem q m'.timers ≡ (q == p || mem q m.timers))
      × ((q : ℕ)
          → m'.store q ≡ (
              if p == q
              then record {
                period = period;
                next = u64 (now + period);
                func = func;
                recurring = recurring;
              }
              else m.store q))
unfolding add_timer
add_timer_lem m p now period func recurring new s =
    let h = update m.store p (new_timer now period func recurring) in
    (
      insert-IsSorted h p m.timers
          (update-IsSorted m.store p (new_timer now period func recurring) m.timers new s),
      (λ q. mem-insert h p q m.timers),
      (λ q. refl),
    )

-- On a sorted set cancel says whether the timer was in the set; afterwards it is not, all others are
-- as before, no timer object is changed, and the set stays sorted.
pub cancel_lem :
    (m : TimerManager) (p : ℕ)
    → IsSorted m.store m.timers
    → ((cancel m p).1 ≡ mem p m.timers)
      × IsSorted m.store (cancel m p).0.timers
      × ((q : ℕ) → mem q (cancel m p).0.timers ≡ (mem q m.timers && not (q == p)))
      × ((cancel m p).0.store ≡ m.store)
unfolding cancel
cancel_lem m p s = (
  erase_hit m.store p m.timers s,
  erase-IsSorted m.store p m.timers s,
  (λ q. mem-erase m.store p q m.timers s),
  refl,
)

-- On a sorted set refresh says whether the timer was in the set. If it was, it expires a period from
-- now (modulo 2 ^ 64) and all other timers are as before; if it was not, no timer object changes. The
-- set keeps its elements and stays sorted.
pub refresh_lem :
    (m : TimerManager) (p now q : ℕ)
    → IsSorted m.store m.timers
    → let (m', found, changed) = refresh m p now in
      (found ≡ mem p m.timers)
      × IsSorted m'.store m'.timers
      × (mem q m'.timers ≡ mem q m.timers)
      × (m'.store q ≡ (
          if mem p m.timers && p == q
          then record (m.store q) { next = u64 (now + (m.store q).period) }
          else m.store q))
unfolding refresh
refresh_lem m p now q s =
    let moved : Timer = record (m.store p) { next = u64 (now + (m.store p).period) } in
    let rest = (erase m.store p m.timers).0 in
    let h = update m.store p moved in
    let out : mem p rest ≡ false = ground (arith, mem-erase m.store p p m.timers s) in
    let kept : IsSorted m.store rest = erase-IsSorted m.store p m.timers s in
    (
      ground (arith, erase_hit m.store p m.timers s),
      elim (Bool-cases (erase m.store p m.timers).1) [
        | inl e ↦
            rw (e, refresh)
              (insert-IsSorted h p rest (update-IsSorted m.store p moved rest out kept))
        | inr e ↦ rw (e, refresh) kept
      ],
      ground (
        arith,
        erase_hit m.store p m.timers s,
        mem-erase m.store p q m.timers s,
        mem-insert h p q rest,
      ),
      ground (arith, erase_hit m.store p m.timers s),
    )
