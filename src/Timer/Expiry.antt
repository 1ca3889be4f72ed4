-- ===== src/Timer/Expiry.antt =====
-- getExpiredFuncs: which timers expire, in which order, and what becomes of them.
use eva.Base.{
  ℕ, ◌+◌, ◌<◌, ◌≤◌, ◌≡◌, refl, ap, Bool, true, false, not, ◌&&◌, ◌||◌, List, [], ◌∷◌, ◌++◌, map,
  some, leb, if◌then◌else◌, update, mem, arith, Bool-cases, u64, inl, inr,
}
use eva.Timer.{Timer, TimerManager, cmp, take_expired, funcs_of, rearm_one, rearm}
use eva.Timer.Order.{
  AllAfter, IsSorted, mem-insert, insert-IsSorted, update-IsSorted, mem-AllAfter, cmp_irrefl,
}

-- A timer is due at the time now.
abbrev pub is_due : (ℕ → Timer) → ℕ → ℕ → Bool
is_due h now p = leb (h p).next now

abbrev pub AllDue : (ℕ → Timer) → ℕ → List ℕ → Type 0
AllDue h now [] = Unit {0}
AllDue h now (p ∷ ps) = ((h p).next ≤ now) × AllDue h now ps

abbrev pub AllPending : (ℕ → Timer) → ℕ → List ℕ → Type 0
AllPending h now [] = Unit {0}
AllPending h now (p ∷ ps) = (now < (h p).next) × AllPending h now ps

abbrev pub Distinct : List ℕ → Type 0
Distinct [] = Unit {0}
Distinct (p ∷ ps) = (mem p ps ≡ false) × Distinct ps

-- No element of the first list is in the second.
abbrev pub Apart : List ℕ → List ℕ → Type 0
Apart [] ts = Unit {0}
Apart (p ∷ ps) ts = (mem p ts ≡ false) × Apart ps ts

pub mem-stay :
    (h : ℕ → Timer) (now q : ℕ) (ts : List ℕ)
    → mem q (take_expired h now ts).0 ≡ (mem q ts && not (is_due h now q))
unfolding take_expired
mem-stay h now q [] = refl
mem-stay h now q (t ∷ ts) = ground (arith, mem-stay h now q ts)

pub mem-gone :
    (h : ℕ → Timer) (now q : ℕ) (ts : List ℕ)
    → mem q (take_expired h now ts).1 ≡ (mem q ts && is_due h now q)
unfolding take_expired
mem-gone h now q [] = refl
mem-gone h now q (t ∷ ts) = ground (arith, mem-gone h now q ts)

AllAfter-stay :
    (h : ℕ → Timer) (now q : ℕ) (ts : List ℕ)
    → AllAfter h q ts
    → AllAfter h q (take_expired h now ts).0
unfolding take_expired
AllAfter-stay h now q [] a = tt
AllAfter-stay h now q (t ∷ ts) a = ground (arith, AllAfter-stay h now q ts a.1)

pub stay-IsSorted :
    (h : ℕ → Timer) (now : ℕ) (ts : List ℕ) → IsSorted h ts → IsSorted h (take_expired h now ts).0
unfolding take_expired
stay-IsSorted h now [] s = tt
stay-IsSorted h now (t ∷ ts) s =
    ground (arith, stay-IsSorted h now ts s.1, AllAfter-stay h now t ts s.0)

not-mem-of-AllAfter : (h : ℕ → Timer) (p : ℕ) (ts : List ℕ) → AllAfter h p ts → mem p ts ≡ false
not-mem-of-AllAfter h p ts a = ground (arith, mem-AllAfter h p p ts a, cmp_irrefl h (some p))

pub gone-Distinct :
    (h : ℕ → Timer) (now : ℕ) (ts : List ℕ) → IsSorted h ts → Distinct (take_expired h now ts).1
unfolding take_expired
gone-Distinct h now [] s = tt
gone-Distinct h now (t ∷ ts) s =
    ground (arith, gone-Distinct h now ts s.1, mem-gone h now t ts, not-mem-of-AllAfter h t ts s.0)

Apart-of-mem : (ps ts : List ℕ) → ((q : ℕ) → mem q ps ≡ true → mem q ts ≡ false) → Apart ps ts
Apart-of-mem [] ts f = tt
Apart-of-mem (p ∷ ps) ts f = (f p (ground arith), Apart-of-mem ps ts (λ q e. f q (ground arith)))

pub gone-stay-Apart :
    (h : ℕ → Timer) (now : ℕ) (ts : List ℕ)
    → Apart (take_expired h now ts).1 (take_expired h now ts).0
gone-stay-Apart h now ts =
    Apart-of-mem _ _ λ q e. ground (arith, mem-gone h now q ts, mem-stay h now q ts)

-- In a sorted set the timers that expire are a prefix.
pub AllAfter-AllPending :
    (h : ℕ → Timer) (now p : ℕ) (ts : List ℕ)
    → now < (h p).next
    → AllAfter h p ts
    → AllPending h now ts
unfolding cmp
AllAfter-AllPending h now p [] e a = tt
AllAfter-AllPending h now p (t ∷ ts) e a = (ground arith, AllAfter-AllPending h now p ts e a.1)

pub take_expired-AllPending :
    (h : ℕ → Timer) (now : ℕ) (ts : List ℕ) → AllPending h now ts → take_expired h now ts ≡ (ts, [])
unfolding take_expired
take_expired-AllPending h now [] a = refl
take_expired-AllPending h now (t ∷ ts) a = ground (arith, take_expired-AllPending h now ts a.1)

pub take_expired_prefix :
    (h : ℕ → Timer) (now : ℕ) (ts : List ℕ)
    → IsSorted h ts
    → (ts ≡ (take_expired h now ts).1 ++ (take_expired h now ts).0)
      × AllDue h now (take_expired h now ts).1
      × AllPending h now (take_expired h now ts).0
unfolding take_expired
take_expired_prefix h now [] s = (refl, tt, tt)
take_expired_prefix h now (t ∷ ts) s = elim (Bool-cases (leb (h t).next now)) [
  | inl due ↦ rw due (ground (arith, take_expired_prefix h now ts s.1))
  | inr later ↦
      rw
        (
          later,
          take_expired-AllPending h now ts (AllAfter-AllPending h now t ts (ground arith) s.0),
        )
        (refl, tt, (ground arith, AllAfter-AllPending h now t ts (ground arith) s.0))
]

pub funcs_of-map : (h : ℕ → Timer) (ps : List ℕ) → funcs_of h ps ≡ map (λ p. (h p).func) ps
unfolding funcs_of
funcs_of-map h [] = refl
funcs_of-map h (p ∷ ps) = ap (◌∷◌ (h p).func) (funcs_of-map h ps)

-- The second loop: where the store and the set stand after it.
pub rearm-store :
    (m : TimerManager) (ps : List ℕ) (q : ℕ)
    → Distinct ps
    → (rearm m ps).store q ≡ (
        if mem q ps && (m.store q).recurring
        then record (m.store q) { next = u64 ((m.store q).next + (m.store q).period) }
        else m.store q)
unfolding rearm rearm_one
rearm-store m [] q d = refl
rearm-store m (p ∷ ps) q d = ground (arith, rearm-store (rearm_one m p) ps q d.1)

pub mem-rearm :
    (m : TimerManager) (ps : List ℕ) (q : ℕ)
    → Distinct ps
    → mem q (rearm m ps).timers ≡ (mem q m.timers || (mem q ps && (m.store q).recurring))
unfolding rearm rearm_one
mem-rearm m [] q d = ground arith
mem-rearm m (p ∷ ps) q d = ground (
  arith,
  mem-rearm (rearm_one m p) ps q d.1,
  mem-insert
      (update m.store p (record (m.store p) { next = u64 ((m.store p).next + (m.store p).period) }))
      p q m.timers,
)

Apart-rearm_one :
    (m : TimerManager) (p : ℕ) (ps : List ℕ)
    → mem p ps ≡ false
    → Apart ps m.timers
    → Apart ps (rearm_one m p).timers
unfolding rearm_one
Apart-rearm_one m p [] e a = tt
Apart-rearm_one m p (q ∷ qs) e a = ground (
  arith,
  Apart-rearm_one m p qs,
  a.1,
  mem-insert
      (update m.store p (record (m.store p) { next = u64 ((m.store p).next + (m.store p).period) }))
      p q m.timers,
)

rearm_one-IsSorted :
    (m : TimerManager) (p : ℕ)
    → mem p m.timers ≡ false
    → IsSorted m.store m.timers
    → IsSorted (rearm_one m p).store (rearm_one m p).timers
unfolding rearm_one
rearm_one-IsSorted m p e s =
    let moved : Timer = record (m.store p) { next = u64 ((m.store p).next + (m.store p).period) } in
    ground (
      arith,
      insert-IsSorted (update m.store p moved) p m.timers
          (update-IsSorted m.store p moved m.timers e s),
    )

pub rearm-IsSorted :
    (m : TimerManager) (ps : List ℕ)
    → Distinct ps
    → Apart ps m.timers
    → IsSorted m.store m.timers
    → IsSorted (rearm m ps).store (rearm m ps).timers
unfolding rearm
rearm-IsSorted m [] d a s = s
rearm-IsSorted m (p ∷ ps) d a s =
    rearm-IsSorted (rearm_one m p) ps d.1 (Apart-rearm_one m p ps d.0 a.1)
      (rearm_one-IsSorted m p a.0 s)
