-- ===== src/Timer/Gap/Tests.antt =====
-- A timer that is cancelled while it is refreshed.
use eva.Base.{◌≡◌, refl, true, false, [], ◌∷◌, mem}
use eva.Timer.{TimerManager, cancel, refresh}
use eva.Timer.Gap.{cancel_between, cancel_between_lem}

abbrev one : TimerManager
one = record {
  store = λ p. record { period = 50; next = 100; func = 7; recurring = false };
  timers = 1 ∷ [];
}

cancel_between_lem_example :
    let before = cancel one 1 in
    let after = cancel (refresh one 1 90).0 1 in
    let between = cancel_between one 1 90 in
    (before.1 ≡ true)
    × (mem 1 (refresh before.0 1 90).0.timers ≡ false)
    × (after.1 ≡ true)
    × (mem 1 after.0.timers ≡ false)
    × (between.1 ≡ false)
    × (between.2 ≡ true)
    × (mem 1 between.0.timers ≡ true)
cancel_between_lem_example = cancel_between_lem one 1 90 (tt, tt) refl
