-- ===== src/Timer/Gap.antt =====
-- src/timer.cpp: refresh with its two critical sections, and what another thread may do between them.
mod Tests
use eva.Base.{
  subst, sym, ◌∙◌, ℕ, ◌+◌, ◌≡◌, refl, Bool, true, false, not, ◌&&◌, ◌||◌, ◌==◌, if◌then◌else◌,
  update, mem, u64, arith, Bool-cases, inl, inr,
}
use eva.Timer.{Timer, TimerManager, insert, erase, add_ptr, cancel, refresh}
use eva.Timer.Order.{
  IsSorted, mem-insert, insert-IsSorted, erase_hit, mem-erase, erase-IsSorted, update-IsSorted,
}
use eva.Timer.Updates.{cancel_lem, refresh_lem}

-- The first critical section: the Boolean says whether refresh goes on. The second is add_ptr.
unfoldable pub take_out : TimerManager → ℕ → ℕ → TimerManager × Bool
unfolding erase
take_out m p now =
    let (ts, hit) = erase m.store p m.timers in
    let t : Timer = m.store p in
    let moved : Timer = record t { next = u64 (now + t.period) } in
    if hit
    then (record { store = update m.store p moved; timers = ts }, true)
    else (record m { timers = ts }, false)

-- refresh as its two critical sections, with the cancel of another thread between them: the manager
-- left, the result of cancel and that of refresh.
unfoldable pub cancel_between : TimerManager → ℕ → ℕ → TimerManager × Bool × Bool
unfolding take_out cancel add_ptr
cancel_between m p now =
    let (m1, goes_on) = take_out m p now in
    let (m2, hit) = cancel m1 p in
    (if goes_on then ((add_ptr m2 p).0, hit, true) else (m2, hit, false))

-- The two sections one after the other are refresh.
take_out-refresh :
    (m : TimerManager) (p now : ℕ)
    → refresh m p now ≡ (
        let (m1, goes_on) = take_out m p now in
        if goes_on then ((add_ptr m1 p).0, true, (add_ptr m1 p).1) else (m1, false, false))
unfolding refresh take_out
take_out-refresh m p now = elim (Bool-cases (erase m.store p m.timers).1) [
  | inl e ↦ rw e
  | inr e ↦ rw e
]

between_lem :
    (m : TimerManager) (p now : ℕ)
    → IsSorted m.store m.timers
    → mem p m.timers ≡ true
    → let between = cancel_between m p now in
      (between.1 ≡ false) × (between.2 ≡ true) × (mem p between.0.timers ≡ true)
unfolding cancel_between
between_lem m p now s here =
    let moved : Timer = record (m.store p) { next = u64 (now + (m.store p).period) } in
    let h = update m.store p moved in
    let rest = (erase m.store p m.timers).0 in
    let hit : (erase m.store p m.timers).1 ≡ true = erase_hit m.store p m.timers s ∙ here in
    let out : mem p rest ≡ false = ground (arith, mem-erase m.store p p m.timers s) in
    let kept : IsSorted h rest =
      update-IsSorted m.store p moved rest out (erase-IsSorted m.store p m.timers s) in
    rw hit
      (erase_hit h p rest kept ∙ out, refl, ground (arith, mem-insert h p p (erase h p rest).0))

-- For a timer of a sorted set, a cancel before or after refresh removes it and says so. A cancel
-- between the two critical sections of refresh says that there is no timer, and the timer is in the
-- set afterwards.
pub cancel_between_lem :
    (m : TimerManager) (p now : ℕ)
    → IsSorted m.store m.timers
    → mem p m.timers ≡ true
    → let before = cancel m p in
      let after = cancel (refresh m p now).0 p in
      let between = cancel_between m p now in
      (before.1 ≡ true)
      × (mem p (refresh before.0 p now).0.timers ≡ false)
      × (after.1 ≡ true)
      × (mem p after.0.timers ≡ false)
      × (between.1 ≡ false)
      × (between.2 ≡ true)
      × (mem p between.0.timers ≡ true)
cancel_between_lem m p now s here =
    let c = cancel_lem m p s in
    let sorted_still : IsSorted (cancel m p).0.store (cancel m p).0.timers =
      subst (λ h. IsSorted h (cancel m p).0.timers) (sym c.3) c.1 in
    let b = refresh_lem (cancel m p).0 p now p sorted_still in
    let r = refresh_lem m p now p s in
    let a = cancel_lem (refresh m p now).0 p r.1 in
    let x = between_lem m p now s here in
    (
      ground (arith, c.0),
      ground (arith, b.2, c.2 p),
      ground (arith, a.0, r.2),
      ground (arith, a.2 p),
      x.0,
      x.1,
      x.2,
    )
