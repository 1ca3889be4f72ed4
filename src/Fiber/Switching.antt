-- ===== src/Fiber/Switching.antt =====
-- What holds of a thread between two switches, and that each operation keeps it.
use eva.Base.{ℕ, ◌≡◌, ◌≢◌, Bool, false, Option, some, ok, arith}
use eva.Fiber.{
  State, Thread, is_running, new_fiber, destroy, reset, call, yield_as, main_func, Ending,
}

-- The thread has the main fiber m; t_fiber is the fiber that executes; this fiber and the main fiber
-- are RUNNING and no other is; each context holds its own fiber's execution.
pub record Inv (m : ℕ) (t : Thread) : Type 0 where
  pub main_set : t.main ≡ some m
  pub this_runs : t.this ≡ some t.running
  pub main_is_running : (t.store m).state ≡ State.running
  pub this_is_running : (t.store t.running).state ≡ State.running
  pub others : (p : ℕ) → p ≢ m → p ≢ t.running → is_running (t.store p).state ≡ false
  pub own : (p : ℕ) → t.saved p ≡ p

module _ (m : ℕ) (t t' : Thread) (v : Inv m t) where
  pub call-Inv : (p : ℕ) → t.running ≡ m → call t p ≡ ok t' → Inv m t'
  unfolding call
  call-Inv p e h = record {
    main_set = ground arith;
    this_runs = ground (arith, v.own p, v.own m);
    main_is_running = ground (arith, v.own p);
    this_is_running = ground (arith, v.own p, v.own m);
    others = λ q. ground (arith, v.others q, v.own p, v.own m);
    own = λ q. ground (arith, v.own q);
  }

  pub yield_as-Inv : (s : State) → is_running s ≡ false → yield_as s t ≡ ok t' → Inv m t'
  unfolding yield_as
  yield_as-Inv s w h = record {
    main_set = ground arith;
    this_runs = ground (arith, v.own m, v.own t.running);
    main_is_running = ground (arith, v.own m);
    this_is_running = ground (arith, v.own m, v.own t.running);
    others = λ q. ground (arith, v.others q, v.own m);
    own = λ q. ground (arith, v.own q);
  }

  pub main_func-Inv : (e : Ending) → t.running ≢ m → main_func t e ≡ ok t' → Inv m t'
  unfolding main_func
  main_func-Inv e w h = record {
    main_set = ground arith;
    this_runs = ground (arith, v.own m, v.own t.running);
    main_is_running = ground (arith, v.own m);
    this_is_running = ground (arith, v.own m, v.own t.running);
    others = λ q. ground (arith, v.others q, v.own m);
    own = λ q. ground (arith, v.own q);
  }

  pub new_fiber-Inv :
      (p : ℕ) (func : Option ℕ) (flag : Bool)
      → p ≢ m
      → p ≢ t.running
      → new_fiber t p func flag ≡ ok t'
      → Inv m t'
  unfolding new_fiber
  new_fiber-Inv p func flag n k h = record {
    main_set = ground arith;
    this_runs = ground arith;
    main_is_running = ground arith;
    this_is_running = ground arith;
    others = λ q. ground (arith, v.others q);
    own = λ q. ground (arith, v.own q);
  }

  pub reset-Inv :
      (p : ℕ) (func : Option ℕ) → p ≢ m → p ≢ t.running → reset t p func ≡ ok t' → Inv m t'
  unfolding reset
  reset-Inv p func n k h = record {
    main_set = ground arith;
    this_runs = ground arith;
    main_is_running = ground arith;
    this_is_running = ground arith;
    others = λ q. ground (arith, v.others q);
    own = λ q. ground (arith, v.own q);
  }

  pub destroy-Inv : (p : ℕ) → p ≢ m → destroy t p ≡ ok t' → Inv m t'
  unfolding destroy
  destroy-Inv p n h = record {
    main_set = ground arith;
    this_runs = ground arith;
    main_is_running = ground arith;
    this_is_running = ground arith;
    others = λ q. ground (arith, v.others q);
    own = λ q. ground (arith, v.own q);
  }
