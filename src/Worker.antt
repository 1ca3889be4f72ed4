-- ===== src/Worker.antt =====
-- src/scheduler.cpp, src/iomanager.cpp and src/hook.cpp: the thread-local variables that Scheduler::run
-- sets on its thread, and what the functions that run there read of them.
use eva.Base.{ℕ, ◌≡◌, refl, Bool, true, Option, none, some, ◌==◌, if◌then◌else◌, update, arith}
use eva.Hook.Originals.{Originals, is_hooked, set_hook}

-- t_scheduler and t_fiber of scheduler.cpp for each thread; the objects are known by their addresses.
pub record Locals : Type 0 where
  pub t_scheduler : ℕ → Option ℕ
  pub t_fiber : ℕ → Option ℕ
  pub hooks : Originals

-- The beginning of run of the scheduler self on the thread t, where Fiber::GetThis gives the fiber f.
unfoldable pub begin_run : Locals → ℕ → ℕ → ℕ → Locals
unfolding set_hook
begin_run l t self f = record {
  t_scheduler = update l.t_scheduler t (some self);
  t_fiber = update l.t_fiber t (some f);
  hooks = set_hook l.hooks t true;
}

-- Scheduler::GetThis and Scheduler::GetMainFiber.
unfoldable pub get_this : Locals → ℕ → Option ℕ
get_this l t = l.t_scheduler t

unfoldable pub get_main_fiber : Locals → ℕ → Option ℕ
get_main_fiber l t = l.t_fiber t

-- IOManager::GetThis: the dynamic_cast is null where the scheduler is no IOManager.
unfoldable pub get_io_manager : (ℕ → Bool) → Locals → ℕ → Option ℕ
unfolding get_this
get_io_manager is_io l t = elim (get_this l t) [
  | none ↦ none
  | some p ↦ if is_io p then some p else none
]

-- Behind the beginning of run, the functions of the thread see this scheduler and this main fiber, as
-- an IOManager if it is one, and their calls are hooked; every other thread sees what it saw.
pub begin_run_lem :
    (is_io : ℕ → Bool) (l : Locals) (t self f u : ℕ)
    → let l' = begin_run l t self f in
      (get_this l' u ≡ (if t == u then some self else get_this l u))
      × (get_main_fiber l' u ≡ (if t == u then some f else get_main_fiber l u))
      × (get_io_manager is_io l' u
          ≡ (if t == u then (if is_io self then some self else none) else get_io_manager is_io l u))
      × (is_hooked l'.hooks u ≡ (if t == u then true else is_hooked l.hooks u))
unfolding begin_run get_main_fiber get_io_manager is_hooked
begin_run_lem is_io l t self f u = (refl, refl, ground arith, refl)
