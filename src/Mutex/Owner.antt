-- ===== src/Mutex/Owner.antt =====
-- Mutex of src/mutex.h: whom isLockedByThisThread says yes to.
use eva.Base.{ℕ, ◌≡◌, ◌≢◌, ◌<◌, ◌↔◌, refl, true, some, arith}
use eva.Mutex.{
  outside, inside, Mutex, new_mutex, Step, lock_mutex, note_thread, clear_thread, unlock_mutex,
  Reach, made, then_step, is_locked_by,
}

-- Whoever is not outside has the pthread mutex, and no other thread has it; m_thread is the thread that is between lock and unlock,
-- or 0.
pub record Inv (m : Mutex) : Type 0 where
  pub held : (t : ℕ) → m.place t ≢ outside → m.holder ≡ some t
  pub placed : (t : ℕ) → m.holder ≡ some t → m.place t ≢ outside
  pub noted : 0 < m.thread → m.place m.thread ≡ inside
  pub inside_noted : (t : ℕ) → m.place t ≡ inside → (m.thread ≡ t) × (0 < t)

new_mutex-Inv : Inv new_mutex
unfolding new_mutex
new_mutex-Inv = record {
  held = λ t h. absurd (h refl);
  placed = λ t h. absurd (cc);
  noted = λ h. absurd (omega arith);
  inside_noted = λ t h. absurd (cc);
}

Step-Inv : {m n : Mutex} → Step m n → Inv m → Inv n
Step-Inv (lock_mutex m t a b) v = record {
  held = λ u h. ground (arith, v.held u);
  placed = λ u h. ground (arith, v.placed u);
  noted = λ h. ground (arith, v.noted);
  inside_noted = λ u h. ground (arith, v.inside_noted u);
}
Step-Inv (note_thread m t a b) v = record {
  held = λ u h. ground (arith, v.held u, v.held t);
  placed = λ u h. ground (arith, v.placed u);
  noted = λ h. ground arith;
  inside_noted = λ u h. ground (arith, v.inside_noted u, v.held u, v.held t);
}
Step-Inv (clear_thread m t a) v = record {
  held = λ u h. ground (arith, v.held u, v.held t);
  placed = λ u h. ground (arith, v.placed u);
  noted = λ h. absurd (omega arith);
  inside_noted = λ u h. ground (arith, v.inside_noted u, v.inside_noted t);
}
Step-Inv (unlock_mutex m t a) v = record {
  held = λ u h. ground (arith, v.held u, v.held t);
  placed = λ u h. absurd (cc);
  noted = λ h. ground (arith, v.noted);
  inside_noted = λ u h. ground (arith, v.inside_noted u);
}

pub Reach-Inv_mutex : {m : Mutex} → Reach m → Inv m
Reach-Inv_mutex made = new_mutex-Inv
Reach-Inv_mutex (then_step r s) = Step-Inv s (Reach-Inv_mutex r)

-- In every interleaving of lock and unlock of any threads, isLockedByThisThread called by a thread,
-- whose id is not 0, says yes exactly where this thread is between its lock and its unlock; it then
-- has the pthread mutex.
is_locked_by_lem :
    (m : Mutex) (t : ℕ)
    → Reach m
    → 0 < t
    → ((is_locked_by m t ≡ true) ↔ (m.place t ≡ inside))
      × ((is_locked_by m t ≡ true) → m.holder ≡ some t)
unfolding is_locked_by
is_locked_by_lem m t r h =
    let v = Reach-Inv_mutex r in
    (
      ((λ e. ground (arith, v.noted)), (λ e. ground (arith, v.inside_noted t e))),
      (λ e. ground (arith, v.noted, v.held t)),
    )
