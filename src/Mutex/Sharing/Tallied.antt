-- ===== src/Mutex/Sharing/Tallied.antt =====
-- RWMutex and its guards in src/mutex.h: the lock counts the guards that have it.
use eva.Base.{
  ℕ, Bool-cases, inl, inr, subst, ◌||◌, ltb, ◌+◌, ◌≤◌, ◌<◌, ◌≡◌, refl, sym, Bool, true, false, List,
  [], ◌∷◌, Option, none, some, arith, sum_below, sum_below-update, sum_below-eq-zero,
  weight-le-sum_below,
}
use eva.Mutex.{
  RwLock, GuardCall, lock, unlock, take, guard_call, guard_calls, rdlock, wrlock, rw_unlock,
  now_locked,
}
use eva.Mutex.Sharing.{
  Action, makes, calls, ends, Sharing, with_guard, locked_flag, guard_made, guard_called,
  guard_gone, new_sharing, thread_of, act, acts, act_on,
}

abbrev pub is_reading : Option (Bool × Bool) → ℕ
is_reading (some (false, true)) = 1
is_reading _ = 0

abbrev pub is_writing : Option (Bool × Bool) → ℕ
is_writing (some (true, true)) = 1
is_writing _ = 0

-- The memory of m_locked happens to be true where a MutexWriteGuard is made.
abbrev pub is_lucky : Action → Bool
is_lucky (makes t true garbage) = garbage
is_lucky _ = true

abbrev pub AllLucky : ℕ → List Action → Type 0
AllLucky n [] = Unit {0}
AllLucky n (a ∷ rest) = (thread_of a < n) × (is_lucky a ≡ true) × AllLucky n rest

abbrev pub as_number : Bool → ℕ
as_number true = 1
as_number false = 0

-- What the lock and the guards of n threads agree on.
pub record IsTallied (n : ℕ) (s : Sharing) : Type 0 where
  pub reading : s.lock.readers ≡ sum_below is_reading n s.guards
  pub writing : as_number s.lock.writer ≡ sum_below is_writing n s.guards
  pub apart : s.lock.writer ≡ true → s.lock.readers ≡ 0

-- One thread's guard and the lock change together.
with_guard-IsTallied :
    (n : ℕ) (s : Sharing) (t : ℕ) (l : RwLock) (g : Option (Bool × Bool))
    → t < n
    → IsTallied n s
    → l.readers + is_reading (s.guards t) ≡ s.lock.readers + is_reading g
    → as_number l.writer + is_writing (s.guards t) ≡ as_number s.lock.writer + is_writing g
    → (l.writer ≡ true → l.readers ≡ 0)
    → IsTallied n (with_guard s t l g)
with_guard-IsTallied n s t l g lt v r w a = record {
  reading = omega (arith, v.reading, sum_below-update is_reading n s.guards t g lt);
  writing = omega (arith, v.writing, sum_below-update is_writing n s.guards t g lt);
  apart = a;
}

-- A guard with the lock is counted.
pub held_read :
    (n : ℕ) (s : Sharing) (t : ℕ) → t < n → IsTallied n s → is_reading (s.guards t) ≤ s.lock.readers
held_read n s t lt v = omega (arith, v.reading, weight-le-sum_below is_reading n s.guards t lt)

pub held_write :
    (n : ℕ) (s : Sharing) (t : ℕ)
    → t < n
    → IsTallied n s
    → is_writing (s.guards t) ≤ as_number s.lock.writer
held_write n s t lt v = omega (arith, v.writing, weight-le-sum_below is_writing n s.guards t lt)

unlocked : (w : Bool) → (is_reading (some (w, false)) ≡ 0) × (is_writing (some (w, false)) ≡ 0)
unlocked true = (refl, refl)
unlocked false = (refl, refl)

module _ (n : ℕ) (s s' : Sharing) (t : ℕ) (lt : t < n) (v : IsTallied n s) where
  -- The state that an action leaves, with its lock and its guard.
  becomes-IsTallied :
      (l : RwLock) (g h : Option (Bool × Bool))
      → s.guards t ≡ h
      → some (with_guard s t l g) ≡ some s'
      → l.readers + is_reading h ≡ s.lock.readers + is_reading g
      → as_number l.writer + is_writing h ≡ as_number s.lock.writer + is_writing g
      → (l.writer ≡ true → l.readers ≡ 0)
      → IsTallied n s'
  becomes-IsTallied l g h e x r w a =
      let same : with_guard s t l g ≡ s' = cc in
      subst (IsTallied n) same (with_guard-IsTallied n s t l g lt v (rw e r) (rw e w) a)

  makes-IsTallied :
      (w garbage : Bool)
      → locked_flag w garbage ≡ true
      → s.guards t ≡ none
      → guard_made s t w garbage (take false w s.lock) ≡ some s'
      → IsTallied n s'
  unfolding rdlock wrlock
  makes-IsTallied true garbage f h e = elim (Bool-cases (s.lock.writer || ltb 0 s.lock.readers)) [
    | inl y ↦ absurd (ground arith)
    | inr y ↦
        becomes-IsTallied (record s.lock { writer = true }) (some (true, true)) none h
          (ground arith) (ground arith) (ground arith) (λ q. ground arith)
  ]
  makes-IsTallied false garbage f h e = elim (Bool-cases s.lock.writer) [
    | inl y ↦ absurd (ground arith)
    | inr y ↦
        becomes-IsTallied (record s.lock { readers = s.lock.readers + 1 }) (some (false, true)) none
          h (ground arith) (ground arith) (ground arith) (λ q. ground arith)
  ]

  kept-IsTallied :
      (w k : Bool) (g : Option (Bool × Bool))
      → s.guards t ≡ some (w, k)
      → is_reading g ≡ is_reading (some (w, k))
      → is_writing g ≡ is_writing (some (w, k))
      → some (with_guard s t s.lock g) ≡ some s'
      → IsTallied n s'
  kept-IsTallied w k g h r x e =
      becomes-IsTallied s.lock g (some (w, k)) h e (omega arith) (omega arith) v.apart

  release-IsTallied :
      (w : Bool) (g : Option (Bool × Bool))
      → s.guards t ≡ some (w, true)
      → is_reading g ≡ 0
      → is_writing g ≡ 0
      → some (with_guard s t (rw_unlock s.lock) g) ≡ some s'
      → IsTallied n s'
  unfolding rw_unlock
  release-IsTallied true g h r x e =
      let one : is_writing (s.guards t) ≡ 1 = rw h in
      let held : 1 ≤ as_number s.lock.writer = omega (arith, held_write n s t lt v) in
      let y : s.lock.writer ≡ true = ground arith in
      becomes-IsTallied (rw_unlock s.lock) g (some (true, true)) h e (ground arith) (ground arith)
        (λ q. ground (arith, v.apart))
  release-IsTallied false g h r x e =
      let one : is_reading (s.guards t) ≡ 1 = rw h in
      let held : 1 ≤ s.lock.readers = omega (arith, held_read n s t lt v) in
      let y : s.lock.writer ≡ false = ground (arith, v.apart) in
      becomes-IsTallied (rw_unlock s.lock) g (some (false, true)) h e (ground arith) (ground arith)
        (λ q. ground arith)

  lock-IsTallied :
      (w : Bool)
      → s.guards t ≡ some (w, false)
      → guard_called s t w (now_locked (take false w s.lock)) ≡ some s'
      → IsTallied n s'
  unfolding rdlock wrlock
  lock-IsTallied true h e = elim (Bool-cases (s.lock.writer || ltb 0 s.lock.readers)) [
    | inl y ↦ absurd (ground arith)
    | inr y ↦
        becomes-IsTallied (record s.lock { writer = true }) (some (true, true)) (some (true, false))
          h (ground arith) (ground arith) (ground arith) (λ q. ground arith)
  ]
  lock-IsTallied false h e = elim (Bool-cases s.lock.writer) [
    | inl y ↦ absurd (ground arith)
    | inr y ↦
        becomes-IsTallied (record s.lock { readers = s.lock.readers + 1 }) (some (false, true))
          (some (false, false)) h (ground arith) (ground arith) (ground arith) (λ q. ground arith)
  ]

  calls-IsTallied :
      (c : GuardCall) (w k : Bool)
      → s.guards t ≡ some (w, k)
      → guard_called s t w (guard_call false w c (s.lock, k)) ≡ some s'
      → IsTallied n s'
  unfolding guard_call
  calls-IsTallied lock w true h e = kept-IsTallied w true (some (w, true)) h refl refl e
  calls-IsTallied lock w false h e = lock-IsTallied w h e
  calls-IsTallied unlock w true h e =
      release-IsTallied w (some (w, false)) h (unlocked w).0 (unlocked w).1 e
  calls-IsTallied unlock w false h e = kept-IsTallied w false (some (w, false)) h refl refl e

  ends-IsTallied :
      (w k : Bool)
      → s.guards t ≡ some (w, k)
      → guard_gone s t (guard_calls false w [] (s.lock, k)) ≡ some s'
      → IsTallied n s'
  unfolding guard_calls
  ends-IsTallied w true h e = release-IsTallied w none h refl refl e
  ends-IsTallied w false h e =
      kept-IsTallied w false none h (sym (unlocked w).0) (sym (unlocked w).1) e

act_on-IsTallied :
    (n : ℕ) (s s' : Sharing) (a : Action) (g : Option (Bool × Bool))
    → thread_of a < n
    → is_lucky a ≡ true
    → IsTallied n s
    → s.guards (thread_of a) ≡ g
    → act_on s a g ≡ some s'
    → IsTallied n s'
unfolding act_on
act_on-IsTallied n s s' (makes t true garbage) none lt l v h e =
    makes-IsTallied n s s' t lt v true garbage l h e
act_on-IsTallied n s s' (makes t false garbage) none lt l v h e =
    makes-IsTallied n s s' t lt v false garbage refl h e
act_on-IsTallied n s s' (makes t w garbage) (some g) lt l v h e = cc
act_on-IsTallied n s s' (calls t c) none lt l v h e = cc
act_on-IsTallied n s s' (calls t c) (some (w, k)) lt l v h e =
    calls-IsTallied n s s' t lt v c w k h e
act_on-IsTallied n s s' (ends t) none lt l v h e = cc
act_on-IsTallied n s s' (ends t) (some (w, k)) lt l v h e = ends-IsTallied n s s' t lt v w k h e

pub new_sharing-IsTallied : (n : ℕ) → IsTallied n new_sharing
unfolding new_sharing
new_sharing-IsTallied n = record {
  reading = sym (sum_below-eq-zero is_reading n (λ t. none) (λ i. refl));
  writing = sym (sum_below-eq-zero is_writing n (λ t. none) (λ i. refl));
  apart = λ q. refl;
}

pub acts-IsTallied :
    (n : ℕ) (s s' : Sharing) (list : List Action)
    → AllLucky n list
    → IsTallied n s
    → acts s list ≡ some s'
    → IsTallied n s'
unfolding acts
acts-IsTallied n s s' [] l v e = let same : s ≡ s' = cc in subst (IsTallied n) same v
acts-IsTallied n s s' (a ∷ rest) l v e =
    elim (act s a)
        as (λ r.
          act s a ≡ r
          → (elim r [ none ↦ none | some s1 ↦ acts s1 rest ]) ≡ some s'
          → IsTallied n s') [
            | none ↦ λ h q. cc
            | some s1 ↦ λ h q.
                acts-IsTallied n s1 s' rest l.2
                  (act_on-IsTallied n s s1 a (s.guards (thread_of a)) l.0 l.1 v refl h) q
          ]
      refl e
