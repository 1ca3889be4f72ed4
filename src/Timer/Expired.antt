-- ===== src/Timer/Expired.antt =====
-- getExpiredFuncs as a whole.
use eva.Base.{
  ℕ, ◌+◌, ◌≡◌, refl, ap, not, ◌&&◌, ◌||◌, List, [], ◌∷◌, ◌++◌, map, if◌then◌else◌, mem, arith, u64,
}
use eva.Timer.{TimerManager, take_expired, rearm, get_expired_funcs}
use eva.Timer.Order.{IsSorted}
use eva.Timer.Expiry.{
  is_due, AllDue, AllPending, mem-stay, mem-gone, stay-IsSorted, gone-Distinct, gone-stay-Apart,
  take_expired_prefix, funcs_of-map, rearm-store, mem-rearm, rearm-IsSorted,
}

append-nil : (fs : List ℕ) → fs ≡ fs ++ []
append-nil [] = refl
append-nil (f ∷ fs) = ap (◌∷◌ f) (append-nil fs)

-- The early return on an empty set makes no difference.
get_expired_funcs_lem :
    (m : TimerManager) (now : ℕ) (funcs : List ℕ)
    → get_expired_funcs m now funcs ≡ (
      rearm
          (record m { timers = (take_expired m.store now m.timers).0 })
          (take_expired m.store now m.timers).1,
      funcs ++ map (λ p. (m.store p).func) (take_expired m.store now m.timers).1,
    )
unfolding get_expired_funcs
get_expired_funcs_lem m now funcs = at_list m.timers
  where
    at_list :
        (ts : List ℕ)
        → get_expired_funcs (record m { timers = ts }) now funcs ≡ (
          rearm
              (record m { timers = (take_expired m.store now ts).0 })
              (take_expired m.store now ts).1,
          funcs ++ map (λ p. (m.store p).func) (take_expired m.store now ts).1,
        )
    at_list [] = ap (λ fs. (record m { timers = [] }, fs)) (append-nil funcs)
    at_list (t ∷ ts) =
        ap
          (λ fs. (
            rearm (record m { timers = (take_expired m.store now (t ∷ ts)).0 })
                (take_expired m.store now (t ∷ ts)).1,
            funcs ++ fs,
          ))
          (funcs_of-map m.store (take_expired m.store now (t ∷ ts)).1)

-- A set of timers that is sorted, with no two equivalent elements, is so afterwards.
pub get_expired_funcs-IsSorted :
    (m : TimerManager) (now : ℕ) (funcs : List ℕ)
    → IsSorted m.store m.timers
    → IsSorted (get_expired_funcs m now funcs).0.store (get_expired_funcs m now funcs).0.timers
get_expired_funcs-IsSorted m now funcs s = rw (get_expired_funcs_lem m now funcs) (
    rearm-IsSorted (record m { timers = (take_expired m.store now m.timers).0 })
      (take_expired m.store now m.timers).1 (gone-Distinct m.store now m.timers s)
      (gone-stay-Apart m.store now m.timers) (stay-IsSorted m.store now m.timers s))

-- In a sorted set the timers are cut in two: those in front are due and the functions of exactly
-- these are appended, in the order of the set; those behind are not due.
pub get_expired_funcs_cut :
    (m : TimerManager) (now : ℕ) (funcs : List ℕ)
    → IsSorted m.store m.timers
    → (gone stay : List ℕ) × (m.timers ≡ gone ++ stay)
      × AllDue m.store now gone
      × AllPending m.store now stay
      × ((get_expired_funcs m now funcs).1 ≡ funcs ++ map (λ p. (m.store p).func) gone)
get_expired_funcs_cut m now funcs s =
    let (cut, due, pending) = take_expired_prefix m.store now m.timers s in
    (
      (take_expired m.store now m.timers).1,
      (take_expired m.store now m.timers).0,
      cut,
      due,
      pending,
      ap (λ (r : TimerManager × List ℕ). r.1) (get_expired_funcs_lem m now funcs),
    )

-- From a sorted set: afterwards the set holds exactly the timers that were not due and the recurring ones; a recurring
-- timer that was due is later by one period, and no other timer object is changed.
pub get_expired_funcs_rest :
    (m : TimerManager) (now : ℕ) (funcs : List ℕ) (q : ℕ)
    → IsSorted m.store m.timers
    → let m' = (get_expired_funcs m now funcs).0 in
      (mem q m'.timers ≡ (mem q m.timers && (not (is_due m.store now q) || (m.store q).recurring)))
      × (m'.store q ≡ (
          if mem q m.timers && is_due m.store now q && (m.store q).recurring
          then record (m.store q) { next = u64 ((m.store q).next + (m.store q).period) }
          else m.store q))
get_expired_funcs_rest m now funcs q s = rw (get_expired_funcs_lem m now funcs) (
  ground (
    arith,
    mem-gone m.store now q m.timers,
    mem-stay m.store now q m.timers,
    mem-rearm (record m { timers = (take_expired m.store now m.timers).0 })
        (take_expired m.store now m.timers).1 q (gone-Distinct m.store now m.timers s),
  ),
  ground (
    arith,
    mem-gone m.store now q m.timers,
    rearm-store (record m { timers = (take_expired m.store now m.timers).0 })
        (take_expired m.store now m.timers).1 q (gone-Distinct m.store now m.timers s),
  ),
)
