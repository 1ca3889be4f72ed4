-- ===== src/Timer/View/Tests.antt =====
-- Two timers that are added, expired, cancelled and refreshed.
use eva.Base.{◌≡◌, refl, true, false, List, [], ◌∷◌}
use eva.Timer.{TimerManager}
use eva.Timer.Order.{IsSorted}
use eva.Timer.View.{view, Action, adds, cancels, refreshes, expires, act_all, does_all}
use eva.Timer.View.Refines.{act_all-does_all}

abbrev nobody : TimerManager
nobody = record {
  store = λ p. record { period = 0; next = 0; func = 0; recurring = false };
  timers = [];
}

abbrev some_actions : List Action
some_actions =
    adds 1 100 50 7 true ∷ adds 2 100 20 8 false ∷ expires 150 ∷ cancels 2 ∷ refreshes 1 160 ∷ []

results : (act_all nobody some_actions).1 ≡ true ∷ true ∷ true ∷ false ∷ true ∷ []
unfolding act_all
results = refl

act_all-does_all_example :
    (view (act_all nobody some_actions).0 ≡ (does_all (view nobody) some_actions).0)
    × ((act_all nobody some_actions).1 ≡ (does_all (view nobody) some_actions).1)
    × IsSorted (act_all nobody some_actions).0.store (act_all nobody some_actions).0.timers
act_all-does_all_example =
    act_all-does_all nobody some_actions tt (refl, (refl, (tt, (tt, (tt, tt)))))
