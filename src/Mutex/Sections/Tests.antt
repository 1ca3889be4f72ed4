-- ===== src/Mutex/Sections/Tests.antt =====
-- MutexGuard of src/mutex.h on a counter.
use eva.Base.{ℕ, ◌+◌, ◌≡◌, ◌≢◌, refl, [], ◌∷◌, none, some, length, arith}
use eva.Mutex.{outside, new_mutex}
use eva.Mutex.Sections.{
  Memory, Access, Guarded, new_guarded, touch_all, in_turn, GuardStep, construct, constructed,
  use_memory, destruct, destructed, GuardReach, new_guards, then_guard, Alone,
}
use eva.Mutex.Sections.Atomic.{guards_atomic}
use eva.Mutex.Sections.Freed.{ends_left, guards_freed}

-- `local = counter; counter = local + 1`.
abbrev load : Access ℕ ℕ
load (s, l) = (s, s)

abbrev store : Access ℕ ℕ
store (s, l) = (l + 1, l)

abbrev counter : Memory ℕ ℕ
counter = record { shared = 0; locals = λ t. 0 }

-- Threads that take one step after another.
abbrev Run : Type 0
Run = (g : Guarded ℕ ℕ) × GuardReach counter g

abbrev then_step : (r : Run) {h : Guarded ℕ ℕ} (t : ℕ) → GuardStep t r.0 h → Run
then_step r {h} t s = (h, then_guard r.1 s)

-- Thread 5 counts; thread 7 has the mutex and has read the counter.
abbrev entered_5 : Run
unfolding new_guarded new_mutex
entered_5 =
    then_step (new_guarded counter, new_guards) 5 (construct _ 5 (load ∷ store ∷ []) refl refl)

abbrev in_5 : Run
unfolding entered_5
in_5 = then_step entered_5 5 (constructed _ 5 refl (omega arith))

abbrev read_5 : Run
unfolding in_5
read_5 = then_step in_5 5 (use_memory _ 5 load (store ∷ []) refl refl)

abbrev freed_5 : Run
unfolding read_5
freed_5 =
    let stored : Run = then_step read_5 5 (use_memory _ 5 store [] refl refl) in
    let left : Run = then_step stored 5 (destruct _ 5 refl refl) in
    then_step left 5 (destructed _ 5 refl)

abbrev read_7 : Run
unfolding freed_5
read_7 =
    let entered : Run = then_step freed_5 7 (construct _ 7 (load ∷ store ∷ []) refl refl) in
    let noted : Run = then_step entered 7 (constructed _ 7 refl (omega arith)) in
    then_step noted 7 (use_memory _ 7 load (store ∷ []) refl refl)

counted_in_turn : (in_turn read_7.0.scopes counter).shared ≡ 2
unfolding read_7 in_turn
counted_in_turn = refl

read_7_holds : read_7.0.mutex.holder ≡ some 7
unfolding read_7
read_7_holds = refl

guards_atomic_example :
    ((t u : ℕ) → read_7.0.mutex.place t ≢ outside → read_7.0.mutex.place u ≢ outside → t ≡ u)
    × (read_7.0.mutex.holder ≡ none → read_7.0.memory ≡ in_turn read_7.0.scopes counter)
    × ((t : ℕ)
        → read_7.0.mutex.holder ≡ some t
        → touch_all t (read_7.0.rest t) read_7.0.memory ≡ in_turn read_7.0.scopes counter)
guards_atomic_example = guards_atomic counter read_7.0 read_7.1

guards_freed_example :
    (g' : Guarded ℕ ℕ) × Alone 7
      (length (read_7.0.rest 7) + ends_left (read_7.0.mutex.place 7))
      read_7.0
      g'
    × (g'.mutex.holder ≡ none)
    × (g'.memory ≡ in_turn read_7.0.scopes counter)
guards_freed_example = guards_freed counter 7 read_7.0 read_7.1 read_7_holds (omega arith)
