-- ===== src/Fiber/Nested.antt =====
-- What a caller of call and Yield can rely on.
use eva.Base.{ℕ, ◌≡◌, ◌≢◌, ◌↔◌, false, some, ok, abort, arith, if◌then◌else◌, ◌==◌}
use eva.Fiber.{
  State, Thread, is_running, is_term, call, yield_as, main_func, Ending, returned, end_state,
  swapcontext, set_state,
}
use eva.Fiber.Switching.{Inv}

module _ (m : ℕ) (t : Thread) (v : Inv m t) where
  -- Called from the main fiber, another fiber that was not made as a main fiber and is neither
  -- RUNNING nor TERM gets the processor and is RUNNING. When it then yields, the main fiber goes on, the fiber is left in the state that the
  -- yield names, and no other fiber has changed.
  pub call-yield_as :
      (p : ℕ) (s : State)
      → t.running ≡ m
      → p ≢ m
      → (t.store p).is_main ≡ false
      → is_running (t.store p).state ≡ false
      → is_term (t.store p).state ≡ false
      → (t' : Thread) × (call t p ≡ ok t')
        × (t'.running ≡ p)
        × ((t'.store p).state ≡ State.running)
        × (t'' : Thread) × (yield_as s t' ≡ ok t'')
        × (t''.running ≡ m)
        × (t''.this ≡ some m)
        × ((q : ℕ) → t''.store q ≡ (if p == q then record (t.store p) { state = s } else t.store q))
  unfolding call yield_as swapcontext
  call-yield_as p s e n f w u =
      let t' : Thread = swapcontext (set_state (record t { this = some p }) p State.running) m p in
      let t'' : Thread = swapcontext (record (set_state t' p s) { this = some m }) p m in
      (
        t',
        ground arith,
        ground (arith, v.own p),
        ground arith,
        t'',
        ground (arith, v.own p),
        ground (arith, v.own m),
        ground arith,
        λ q. ground arith,
      )

  -- When a fiber that is not the main one calls a third fiber, the main fiber's own execution is
  -- stored nowhere any more: no fiber's context holds it, and it does not run.
  pub call_nested :
      (p : ℕ) (t' : Thread)
      → t.running ≢ m
      → p ≢ m
      → p ≢ t.running
      → call t p ≡ ok t'
      → (t'.running ≢ m) × ((q : ℕ) → t'.saved q ≢ m)
  unfolding call
  call_nested p t' e n k h =
      (ground (arith, v.own p, v.own m), λ q w. ground (arith, v.own p, v.own m, v.own q))

  -- The end of the function of a fiber that is no main fiber gives the processor back to the main fiber, and the fiber is TERM
  -- after a return and EXCEPT after a std::exception. A later call of it from the main fiber fails
  -- its ASSERT after a return; after an exception it is accepted, and the fiber runs again.
  pub call-main_func :
      (e : Ending) (t' : Thread)
      → t.running ≢ m
      → (t.store t.running).is_main ≡ false
      → main_func t e ≡ ok t'
      → (t'.running ≡ m)
        × (end_state e ≡ ok (t'.store t.running).state)
        × ((call t' t.running ≡ abort) ↔ (e ≡ returned))
  unfolding main_func call
  call-main_func e t' n f h = (ground (arith, v.own m), ground arith, (ground arith, ground arith))
