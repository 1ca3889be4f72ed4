-- ===== src/Timer/Tests.antt =====
-- The timers on concrete inputs.
use eva.Base.{
  ℕ, ◌+◌, ◌<◌, ◌≡◌, ◌↔◌, refl, true, false, List, [], ◌∷◌, ◌++◌, map, ◌==◌, if◌then◌else◌, arith,
}
use eva.Timer.{Timer, TimerManager, cmp, add_condition_timer, get_next_time_ms, get_expired_funcs}
use eva.Timer.Order.{IsSorted}
use eva.Timer.Expiry.{AllDue, AllPending}
use eva.Timer.Expired.{get_expired_funcs_cut}
use eva.Timer.Wait.{get_next_time_ms_exact}

abbrev every_50 : Timer
every_50 = record { period = 50; next = 100; func = 7; recurring = true }

abbrev once_200 : Timer
once_200 = record { period = 80; next = 200; func = 8; recurring = false }

-- The timer at address 1 is due at 100, the one at address 2 at 200.
abbrev two : TimerManager
two = record { store = λ p. if p == 1 then every_50 else once_200; timers = 1 ∷ 2 ∷ [] }

two-IsSorted : IsSorted two.store two.timers
unfolding cmp
two-IsSorted = ((refl, tt), (tt, tt))

expired_at_120 : (get_expired_funcs two 120 (5 ∷ [])).1 ≡ 5 ∷ 7 ∷ []
unfolding get_expired_funcs
expired_at_120 = refl

rearmed_at_210 : (get_expired_funcs two 210 []).0.timers ≡ 1 ∷ []
unfolding get_expired_funcs
rearmed_at_210 = refl

-- The number of a bound function is 100 and the sum here.
conditional_added :
    let (m', changed) = add_condition_timer (λ w cb. 100 + w + cb) two 3 90 5 9 4 false in
    (m'.timers ≡ 3 ∷ 1 ∷ 2 ∷ []) × (changed ≡ true) × ((m'.store 3).func ≡ 113)
unfolding add_condition_timer
conditional_added = (refl, refl, refl)

get_expired_funcs_cut_example :
    (gone stay : List ℕ) × (two.timers ≡ gone ++ stay)
    × AllDue two.store 120 gone
    × AllPending two.store 120 stay
    × ((get_expired_funcs two 120 (5 ∷ [])).1 ≡ (5 ∷ []) ++ map (λ p. (two.store p).func) gone)
get_expired_funcs_cut_example = get_expired_funcs_cut two 120 (5 ∷ []) two-IsSorted

get_next_time_ms_exact_example :
    ((get_expired_funcs two 95 []).1 ≡ []) ↔ (95 < 90 + get_next_time_ms two 90)
get_next_time_ms_exact_example =
    get_next_time_ms_exact two 90 95 two-IsSorted (λ e. ground arith) (omega arith)
