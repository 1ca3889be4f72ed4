-- ===== src/Fiber/Tests.antt =====
-- One thread that makes a fiber, calls it and gets the processor back.
use eva.Base.{
  ℕ, ◌≡◌, ◌≢◌, ◌↔◌, refl, true, false, none, some, ok, abort, arith, ◌==◌, if◌then◌else◌,
}
use eva.Fiber.{
  State, ready, suspend, except, Fiber, Thread, returned, threw, end_state, make_main, new_fiber,
  call, yield_as, main_func, swapcontext, set_state,
}
use eva.Fiber.Reachable.{calls, makes, Reach, start, next, Reach-Inv}
use eva.Fiber.Nested.{call-yield_as, call_nested, call-main_func}

abbrev blank : Fiber
blank = record { id = 0; func = none; is_main = false; state = ready; link = none }

abbrev fresh : Thread
fresh = record {
  store = λ p. blank;
  last_id = 0;
  count = 0;
  this = none;
  main = none;
  running = 0;
  saved = λ p. p;
}

-- With a main fiber at the address 0, and fibers at 1 and 2.
abbrev with_main : Thread
with_main = record {
  store = λ q. if 0 == q then record blank { is_main = true; state = State.running } else blank;
  last_id = 0;
  count = 1;
  this = some 0;
  main = some 0;
  running = 0;
  saved = λ p. p;
}

with_main_made : make_main fresh 0 ≡ ok with_main
unfolding make_main
with_main_made = refl

abbrev worker : Fiber
worker = record { id = 1; func = some 9; is_main = false; state = ready; link = none }

abbrev with_fiber : Thread
with_fiber = record with_main {
  store = λ q. if 1 == q then worker else with_main.store q;
  saved = λ q. if 1 == q then 1 else q;
  last_id = 1;
  count = 2;
}

with_fiber_made : new_fiber with_main 1 (some 9) false ≡ ok with_fiber
unfolding new_fiber
with_fiber_made = refl

abbrev in_fiber : Thread
in_fiber = record with_fiber {
  store = λ q. if 1 == q then record worker { state = State.running } else with_fiber.store q;
  saved = λ q. if 0 == q then 0 else with_fiber.saved q;
  this = some 1;
  running = 1;
}

in_fiber_called : call with_fiber 1 ≡ ok in_fiber
unfolding call
in_fiber_called = ground arith

reach_fiber : Reach 0 with_fiber
reach_fiber =
    next (start fresh (refl, refl, (λ p. refl), (λ p. refl)) with_main_made)
      (makes 1 (some 9) false (λ e. ground arith) (λ e. ground arith) with_fiber_made)

reach_call : Reach 0 in_fiber
reach_call = next reach_fiber (calls 1 refl in_fiber_called)

call-yield_as_example :
    (t' : Thread) × (call with_fiber 1 ≡ ok t')
    × (t'.running ≡ 1)
    × ((t'.store 1).state ≡ State.running)
    × (t'' : Thread) × (yield_as suspend t' ≡ ok t'')
    × (t''.running ≡ 0)
    × (t''.this ≡ some 0)
    × ((q : ℕ)
        → t''.store q ≡ (if 1 == q then record worker { state = suspend } else with_fiber.store q))
call-yield_as_example =
    call-yield_as 0 with_fiber (Reach-Inv reach_fiber) 1 suspend refl (λ e. ground arith) refl refl
      refl

abbrev nested : Thread
nested = swapcontext (set_state (record in_fiber { this = some 2 }) 2 State.running) 0 2

nested_called : call in_fiber 2 ≡ ok nested
unfolding call
nested_called = refl

call_nested_example : (nested.running ≢ 0) × ((q : ℕ) → nested.saved q ≢ 0)
call_nested_example =
    call_nested 0 in_fiber (Reach-Inv reach_call) 2 nested (λ e. ground arith) (λ e. ground arith)
      (λ e. ground arith) nested_called

abbrev ended : Thread
ended = swapcontext (record (set_state in_fiber 1 except) { this = some 0 }) 1 0

ended_by_exception : main_func in_fiber threw ≡ ok ended
unfolding main_func
ended_by_exception = refl

call-main_func_example :
    (ended.running ≡ 0)
    × (end_state threw ≡ ok (ended.store 1).state)
    × ((call ended 1 ≡ abort) ↔ (threw ≡ returned))
call-main_func_example =
    call-main_func 0 in_fiber (Reach-Inv reach_call) threw ended (λ e. ground arith) refl
      ended_by_exception
