-- ===== src/Fiber/Reachable.antt =====
-- Every state that a thread reaches while fibers are called from its main fiber only.
use eva.Base.{ℕ, ◌≡◌, ◌≢◌, refl, Bool, false, Option, none, ok, arith}
use eva.Fiber.{
  suspend, ready, Thread, is_running, new_fiber, destroy, reset, call, yield_as, main_func, Ending,
  make_main,
}
use eva.Fiber.Switching.{
  Inv, call-Inv, yield_as-Inv, main_func-Inv, new_fiber-Inv, reset-Inv, destroy-Inv,
}

-- A thread that has made no fiber yet. The states of objects that are not made and contexts that are
-- not filled are never read; they are set to values that need no special case.
abbrev pub IsFresh : Thread → Type 0
IsFresh t =
    (t.this ≡ none)
    × (t.main ≡ none)
    × ((p : ℕ) → is_running (t.store p).state ≡ false)
    × ((p : ℕ) → t.saved p ≡ p)

-- One operation of the thread whose main fiber is m.
pub data Step (m : ℕ) (t t' : Thread) : Type 0 where
  calls : (p : ℕ) → t.running ≡ m → call t p ≡ ok t' → Step m t t'
  suspends : yield_as suspend t ≡ ok t' → Step m t t'
  gives_way : yield_as ready t ≡ ok t' → Step m t t'
  ends : (e : Ending) → t.running ≢ m → main_func t e ≡ ok t' → Step m t t'
  makes :
      (p : ℕ) (func : Option ℕ) (flag : Bool)
      → p ≢ m
      → p ≢ t.running
      → new_fiber t p func flag ≡ ok t'
      → Step m t t'
  resets : (p : ℕ) (func : Option ℕ) → p ≢ m → p ≢ t.running → reset t p func ≡ ok t' → Step m t t'
  destroys : (p : ℕ) → p ≢ m → destroy t p ≡ ok t' → Step m t t'

pub data Reach (m : ℕ) : Thread → Type 0 where
  start : (t : Thread) {t' : Thread} → IsFresh t → make_main t m ≡ ok t' → Reach m t'
  next : {t t' : Thread} → Reach m t → Step m t t' → Reach m t'

make_main-Inv : (m : ℕ) (t t' : Thread) → IsFresh t → make_main t m ≡ ok t' → Inv m t'
unfolding make_main
make_main-Inv m t t' f h = record {
  main_set = ground arith;
  this_runs = ground arith;
  main_is_running = ground arith;
  this_is_running = ground arith;
  others = λ q. ground (arith, f.2 q);
  own = λ q. ground (arith, f.3 q);
}

pub Step-Inv : (m : ℕ) (t t' : Thread) → Step m t t' → Inv m t → Inv m t'
Step-Inv m t t' (calls p e h) v = call-Inv m t t' v p e h
Step-Inv m t t' (suspends h) v = yield_as-Inv m t t' v suspend refl h
Step-Inv m t t' (gives_way h) v = yield_as-Inv m t t' v ready refl h
Step-Inv m t t' (ends e n h) v = main_func-Inv m t t' v e n h
Step-Inv m t t' (makes p func flag n k h) v = new_fiber-Inv m t t' v p func flag n k h
Step-Inv m t t' (resets p func n k h) v = reset-Inv m t t' v p func n k h
Step-Inv m t t' (destroys p n h) v = destroy-Inv m t t' v p n h

pub Reach-Inv : {m : ℕ} {t : Thread} → Reach m t → Inv m t
Reach-Inv {m} (start t {t'} f h) = make_main-Inv m t t' f h
Reach-Inv {m} (next {t} {t'} r s) = Step-Inv m t t' s (Reach-Inv r)
