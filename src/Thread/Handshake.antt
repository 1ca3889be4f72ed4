-- ===== src/Thread/Handshake.antt =====
-- The start of a Thread: what its creator may rely on.
use eva.Base.{
  ℕ, suc, ◌+◌, ◌-◌, ◌<◌, ◌≤◌, ◌≡◌, ◌⊎◌, Bool, true, false, inl, inr, refl, if◌then◌else◌, pos,
  Bytes, codes, is_empty, arith, Bool-cases,
}
use eva.Thread.{
  Parent, creating, waiting, returned, threw, interrupted, Child, absent, entered, identified,
  named, notified, running, Start, new_thread, set_name, Step, create, create_fails, identify,
  set_names, notify, wait, wait_fails, call_back, Reach, begun, then_step,
}

abbrev stage : Child → ℕ
stage absent = 0
stage entered = 1
stage identified = 2
stage named = 3
stage notified = 4
stage running = 5

-- How many calls of notify, and of wait, are done.
abbrev posts : Child → ℕ
posts absent = 0
posts entered = 0
posts identified = 0
posts named = 0
posts notified = 1
posts running = 1

abbrev waits : Parent → ℕ
waits creating = 0
waits waiting = 0
waits returned = 1
waits threw = 0
waits interrupted = 0

-- The semaphore counts the notify that no wait has met; from identify on the id and the thread's own
-- name are set; the new thread is there exactly where pthread_create has succeeded.
record Inv (tid : ℕ) (name : Bytes) (s : Start) : Type 0 where
  counted : s.semaphore + waits s.parent ≡ posts s.child
  set_id : 1 < stage s.child → s.id ≡ pos tid
  set_local : 1 < stage s.child → s.local_name ≡ name
  same_name : s.name ≡ name
  alone : (s.parent ≡ creating) ⊎ (s.parent ≡ threw) → s.child ≡ absent
  there : s.parent ≡ waiting → 0 < stage s.child

set_name-Inv :
    (tid : ℕ) (name : Bytes) (s : Start)
    → Inv tid name s
    → s.child ≡ identified
    → Inv tid name (set_name (record s { child = named }) s.local_name)
unfolding set_name
set_name-Inv tid name s v a = elim (Bool-cases (is_empty s.local_name)) [
  | inl e ↦ rw e (record {
    counted = ground (arith, v.counted);
    set_id = λ h. ground (arith, v.set_id);
    set_local = λ h. ground (arith, v.set_local);
    same_name = v.same_name;
    alone = λ h. ground (arith, v.alone h);
    there = λ h. omega arith;
  })
  | inr e ↦ rw e (record {
    counted = ground (arith, v.counted);
    set_id = λ h. ground (arith, v.set_id);
    set_local = λ h. ground (arith, v.set_local);
    same_name = ground (arith, v.set_local);
    alone = λ h. ground (arith, v.alone h);
    there = λ h. omega arith;
  })
]

Step-Inv : {tid : ℕ} {name : Bytes} {s t : Start} → Step tid s t → Inv tid name s → Inv tid name t
Step-Inv (create s a) v = record {
  counted = ground (arith, v.counted, v.alone (inl a));
  set_id = λ h. absurd (omega arith);
  set_local = λ h. absurd (omega arith);
  same_name = v.same_name;
  alone = λ h. ground arith;
  there = λ h. omega arith;
}
Step-Inv (create_fails s a) v = record {
  counted = ground (arith, v.counted, v.alone (inl a));
  set_id = v.set_id;
  set_local = v.set_local;
  same_name = v.same_name;
  alone = λ h. v.alone (inl a);
  there = λ h. ground arith;
}
Step-Inv (identify s a) v = record {
  counted = ground (arith, v.counted);
  set_id = λ h. refl;
  set_local = λ h. v.same_name;
  same_name = v.same_name;
  alone = λ h. ground (arith, v.alone h);
  there = λ h. omega arith;
}
Step-Inv {tid} {name} (set_names s a) v = set_name-Inv tid name s v a
Step-Inv (notify s a) v = record {
  counted = ground (arith, v.counted);
  set_id = λ h. ground (arith, v.set_id);
  set_local = λ h. ground (arith, v.set_local);
  same_name = v.same_name;
  alone = λ h. ground (arith, v.alone h);
  there = λ h. omega arith;
}
Step-Inv (wait s a b) v = record {
  counted = ground (arith, v.counted);
  set_id = v.set_id;
  set_local = v.set_local;
  same_name = v.same_name;
  alone = λ h. ground arith;
  there = λ h. ground arith;
}
Step-Inv (wait_fails s a) v = record {
  counted = ground (arith, v.counted);
  set_id = v.set_id;
  set_local = v.set_local;
  same_name = v.same_name;
  alone = λ h. ground arith;
  there = λ h. ground arith;
}
Step-Inv (call_back s a) v = record {
  counted = ground (arith, v.counted);
  set_id = λ h. ground (arith, v.set_id);
  set_local = λ h. ground (arith, v.set_local);
  same_name = v.same_name;
  alone = λ h. ground (arith, v.alone h);
  there = λ h. omega arith;
}

-- The name of a Thread: an empty one is replaced.
abbrev pub named_as : Bytes → Bytes
named_as name = if is_empty name then codes "UNKNOWN" else name

Reach-Inv_thread :
    {tid : ℕ} {name : Bytes} {s : Start} → Reach tid name s → Inv tid (named_as name) s
unfolding new_thread
Reach-Inv_thread begun = record {
  counted = refl;
  set_id = λ h. absurd (omega arith);
  set_local = λ h. absurd (omega arith);
  same_name = refl;
  alone = λ h. refl;
  there = λ h. ground arith;
}
Reach-Inv_thread (then_step r st) = Step-Inv st (Reach-Inv_thread r)

-- A step that is neither a failure of pthread_create nor an interruption of the wait.
abbrev pub is_regular : {tid : ℕ} {s t : Start} → Step tid s t → Bool
is_regular (create_fails s a) = false
is_regular (wait_fails s a) = false
is_regular _ = true

-- k steps, all of them such.
pub data Regular (tid : ℕ) (s : Start) : ℕ → Start → Type 0 where
  stays : {k : ℕ} → k ≡ 0 → Regular tid s k s
  goes :
      {j k : ℕ} {t u : Start}
      → Regular tid s j t
      → (st : Step tid t u) → is_regular st ≡ true
      → k ≡ suc j
      → Regular tid s k u

-- What the two threads have left to do until the constructor has returned and m_cb is called.
abbrev pub work : Start → ℕ
work s = (5 - stage s.child) + (1 - waits s.parent)

at_work :
    (tid : ℕ) (name : Bytes) (s : Start) (c : Child)
    → s.child ≡ c
    → s.parent ≡ waiting
    → Inv tid name s
    → (t : Start) × (st : Step tid s t) × (is_regular st ≡ true)
at_work tid name s absent e w v = absurd (ground (arith, v.there w))
at_work tid name s entered e w v = (_, identify s e, refl)
at_work tid name s identified e w v = (_, set_names s e, refl)
at_work tid name s named e w v = (_, notify s e, refl)
at_work tid name s notified e w v = (_, wait s w (ground (arith, v.counted)), refl)
at_work tid name s running e w v = (_, wait s w (ground (arith, v.counted)), refl)

Step-work :
    {tid : ℕ} {name : Bytes} {s t : Start} (st : Step tid s t)
    → is_regular st ≡ true
    → Inv tid name s
    → work t + 1 ≤ work s
unfolding set_name
Step-work (create s a) q v = ground (arith, v.alone (inl a))
Step-work (create_fails s a) q v = absurd (ground (arith, q))
Step-work (identify s a) q v = ground arith
Step-work (set_names s a) q v = elim (Bool-cases (is_empty s.local_name)) [
  | inl e ↦ rw e (ground arith)
  | inr e ↦ rw e (ground arith)
]
Step-work (notify s a) q v = ground arith
Step-work (wait s a b) q v = ground arith
Step-work (wait_fails s a) q v = absurd (ground (arith, q))
Step-work (call_back s a) q v = ground arith

Regular-Inv :
    {tid : ℕ} {name : Bytes} {s t : Start} {k : ℕ}
    → Inv tid name s
    → Regular tid s k t
    → Inv tid name t × (k + work t ≤ work s)
Regular-Inv v (stays e) = (v, rw e (omega arith))
Regular-Inv v (goes r st q e) =
    let (v1, n) = Regular-Inv v r in
    (Step-Inv st v1, (let m = Step-work st q v1 in rw e (omega arith)))

-- In every state that the two threads of Thread(cb, name) can reach: where the constructor has
-- returned, id() is the id the system gave to the new thread, and m_name and the new thread's
-- t_thread_name are the name given, UNKNOWN for an empty one.
-- While the constructor waits, the new thread can go on or, with notify done, the wait can return: a step
-- can be made that is no interruption of the wait; and k steps without an interruption and without a
-- failure of pthread_create leave at least k less of the work that is left, which is at most 6 steps,
-- so without an interruption the constructor returns.
pub handshake_lem :
    (tid : ℕ) (name : Bytes) (s : Start)
    → Reach tid name s
    → ((s.parent ≡ returned)
        → (s.id ≡ pos tid) × (s.name ≡ named_as name) × (s.local_name ≡ named_as name))
      × ((s.parent ≡ waiting) → (t : Start) × (st : Step tid s t) × (is_regular st ≡ true))
      × ((k : ℕ) (t : Start) → Regular tid s k t → k + work t ≤ work s)
handshake_lem tid name s r =
    let v = Reach-Inv_thread r in
    (
      (λ h. (
        ground (arith, v.set_id, v.counted),
        v.same_name,
        ground (arith, v.set_local, v.counted),
      )),
      (λ w. at_work tid (named_as name) s s.child refl w v),
      (λ k t g. (Regular-Inv v g).1),
    )
