-- ===== src/Scheduler/Lifecycle/Uses.antt =====
-- Which lives of a Scheduler pass their ASSERTs.
use eva.Base.{
  ◌++◌, ap, ℕ, ◌<◌, ◌≡◌, refl, Bool, true, false, not, ◌&&◌, List, [], ◌∷◌, if◌then◌else◌, is_some,
  ◌==◌,
}
use eva.Timer.{Timer}
use eva.Scheduler.{Scheduler}
use eva.Scheduler.Lifecycle.{io_uses, SystemCalls, Use, starts, stops}

-- A start follows no other start but after a stop, and the last start is followed by a stop.
abbrev pub is_legal : Bool → List Use → Bool
is_legal started [] = not started
is_legal started (starts ∷ us) = not started && is_legal true us
is_legal started (stops ∷ us) = is_legal false us

-- The scheduler is started, or not.
record Stands (started : Bool) (s : Scheduler) : Type 0 where
  some_threads : 0 < s.thread_count
  not_stopping : s.stopping ≡ false
  as_stopped : s.stopped ≡ not started
  as_threads : (s.threads == 0) ≡ not started

-- The ASSERT of tickle makes the write a second time.
abbrev pub one_works : (sys : SystemCalls) → ℕ → sys.World → Bool
one_works sys fd v =
    if is_some (sys.write_byte fd v).0
    then true
    else is_some (sys.write_byte fd (sys.write_byte fd v).1).0

abbrev started_from : Scheduler → Scheduler
started_from s = record s { stopped = false; threads = s.thread_count }

-- No start comes while the scheduler is started.
abbrev pub never_restarts : Bool → List Use → Bool
never_restarts started [] = true
never_restarts started (starts ∷ us) = not started && never_restarts true us
never_restarts started (stops ∷ us) = never_restarts false us

is_legal-stopped :
    (started : Bool) (us : List Use)
    → is_legal started (us ++ (stops ∷ [])) ≡ never_restarts started us
is_legal-stopped started [] = refl
is_legal-stopped started (starts ∷ us) = ap (λ b. not started && b) (is_legal-stopped true us)
is_legal-stopped started (stops ∷ us) = is_legal-stopped false us

-- An IOManager, which is started by its constructor and stopped by its destructor, passes the ASSERTs
-- of all these calls exactly if its user calls start only after a stop.
pub io_uses-legal : (us : List Use) → is_legal false (io_uses us) ≡ never_restarts true us
io_uses-legal us = is_legal-stopped true us
