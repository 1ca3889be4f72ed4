-- ===== src/Fiber.antt =====
-- src/fiber.h and src/fiber.cpp: the fibers of one thread.
-- A fiber is the address of its object. An execution is named after the fiber that it belongs to:
-- `running` has the processor, and `saved f` is the one that the ucontext of the fiber f holds.
-- Getting a context never fails, as documented; a null pointer that is followed ends the process.
pub mod Switching
pub mod Reachable
pub mod Nested
mod Tests
use eva.Base.{
  ℕ, ◌+◌, Bool, true, false, not, ◌&&◌, ◌||◌, Option, none, some, ◌==◌, if◌then◌else◌, u64, dec64,
  update, same_ptr, is_some, Outcome, ok, abort, assert, ◌>>=◌, ◌>>◌,
}

pub data State : Type 0 where
  ready suspend running term except : State

abbrev pub is_running : State → Bool
is_running running = true
is_running _ = false

abbrev pub is_term : State → Bool
is_term term = true
is_term _ = false

abbrev pub is_ready : State → Bool
is_ready ready = true
is_ready _ = false

-- isDone.
abbrev pub is_done : State → Bool
is_done term = true
is_done except = true
is_done _ = false

-- `func` is the number of the std::function, or none where it is empty; `link` is uc_link.
pub record Fiber : Type 0 where
  pub id : ℕ
  pub func : Option ℕ
  pub is_main : Bool
  pub state : State
  pub link : Option ℕ

pub record Thread : Type 0 where
  pub store : ℕ → Fiber
  pub last_id : ℕ  -- s_fiber_id
  pub count : ℕ  -- s_fiber_count
  pub this : Option ℕ  -- t_fiber
  pub main : Option ℕ  -- t_main_fiber
  pub running : ℕ
  pub saved : ℕ → ℕ

-- swapcontext(&a->m_ctx, &b->m_ctx).
unfoldable pub swapcontext : Thread → ℕ → ℕ → Thread
swapcontext t a b = record t {
  saved = update t.saved a t.running;
  running = update t.saved a t.running b;
}

-- getcontext and makecontext: the context of p begins a new execution of MainFunc.
unfoldable pub makecontext : Thread → ℕ → Thread
makecontext t p = record t { saved = update t.saved p p }

abbrev pub set_state : Thread → ℕ → State → Thread
set_state t p s = record t { store = update t.store p (record (t.store p) { state = s }) }

-- Fiber(func, is_main), at the address p.
unfoldable pub new_fiber : Thread → ℕ → Option ℕ → Bool → Outcome Thread
unfolding makecontext
new_fiber t p func is_main = do
  assert (is_some t.main)
  ok (
      makecontext
        (record t {
          last_id = u64 (t.last_id + 1);
          count = u64 (t.count + 1);
          store = update t.store p (record {
            id = u64 (t.last_id + 1);
            func = func;
            is_main = is_main;
            state = ready;
            link = none;
          });
        })
        p)

-- The private constructor Fiber(): the fiber of the thread's own execution.
unfoldable pub new_main : Thread → ℕ → Outcome Thread
new_main t p = do
  assert (not (is_some t.main))
  ok (record t {
    this = some p;
    count = u64 (t.count + 1);
    store =
        update t.store p
          (record { id = 0; func = none; is_main = true; state = State.running; link = none });
    running = p;
  })

unfoldable pub make_main : Thread → ℕ → Outcome Thread
unfolding new_main
make_main t p =
    if is_some t.main
    then ok t
    else (new_main t p >>= λ t'. ok (record t' { main = some p; this = some p }))

abbrev pub deref : Option ℕ → Outcome ℕ
deref none = abort
deref (some p) = ok p

-- GetThis: p is the address of a main fiber, where one has to be made.
unfoldable pub get_this : Thread → ℕ → Outcome (Thread × ℕ)
unfolding make_main
get_this t p = do
  t' ← (if is_some t.this then ok t else make_main t p)
  cur ← deref t'.this
  ok (t', cur)

-- ~Fiber.
unfoldable pub destroy : Thread → ℕ → Outcome Thread
destroy t p =
    let t' : Thread = record t { count = dec64 t.count } in
    if not (same_ptr (some p) t.main)
    then (do assert (not (is_running (t.store p).state)); ok t')
    else do
      assert (not (is_some (t.store p).func))
      assert (is_running (t.store p).state)
      ok (if same_ptr t.this (some p) then record t' { this = none } else t')

unfoldable pub reset : Thread → ℕ → Option ℕ → Outcome Thread
unfolding makecontext
reset t p func = do
  assert (is_some t.main)
  ok (
      makecontext
        (record t {
          store =
              update t.store p (record (t.store p) { func = func; state = ready; link = t.main });
        })
        p)

unfoldable pub call : Thread → ℕ → Outcome Thread
unfolding swapcontext
call t p = if (t.store p).is_main && same_ptr t.this t.main then ok t else do
  assert (not (is_running (t.store p).state) && not (is_term (t.store p).state))
  m ← deref t.main
  ok (swapcontext (set_state (record t { this = some p }) p State.running) m p)

-- The method yield.
unfoldable pub yield : Thread → ℕ → Outcome Thread
unfolding swapcontext
yield t p =
    if same_ptr t.this t.main
    then ok t
    else do m ← deref t.main; ok (swapcontext (record t { this = some m }) p m)

-- Yield and YieldReady differ in the state that the fiber is left in.
unfoldable pub yield_as : State → Thread → Outcome Thread
unfolding swapcontext
yield_as s t = if same_ptr t.this t.main then ok t else do
  cur ← deref t.this
  m ← deref t.main
  ok (swapcontext (record (set_state t cur s) { this = some m }) cur m)

abbrev pub yield_suspend : Thread → Outcome Thread
yield_suspend = yield_as suspend

abbrev pub yield_ready : Thread → Outcome Thread
yield_ready = yield_as ready

-- How the function of a fiber ends: an exception that is no std::exception is not caught.
pub data Ending : Type 0 where
  returned threw threw_other : Ending

abbrev pub end_state : Ending → Outcome State
end_state returned = ok term
end_state threw = ok except
end_state threw_other = abort

-- MainFunc from the end of m_func on.
unfoldable pub main_func : Thread → Ending → Outcome Thread
unfolding yield
main_func t e = do cur ← deref t.this; s ← end_state e; yield (set_state t cur s) cur

unfoldable pub get_fiber_id : Thread → ℕ
get_fiber_id t = elim t.this [ none ↦ 0 | some p ↦ (t.store p).id ]

unfoldable pub get_total_count : Thread → ℕ
get_total_count t = t.count
