-- ===== src/Timer/View.antt =====
-- What a TimerManager promises: a map from the timers in its set to their data, and what each method
-- does to this map. The store and the order of the set are hidden.
pub mod Refines
mod Tests
use eva.Base.{
  ℕ, ◌+◌, ◌≡◌, Bool, true, false, List, [], ◌∷◌, Option, none, some, leb, ◌==◌, if◌then◌else◌, u64,
  update, mem, is_some,
}
use eva.Timer.{Timer, TimerManager, Func, new_timer, add_timer, cancel, refresh, get_expired_funcs}

abbrev pub View : Type 0
View = ℕ → Option Timer

abbrev pub view : TimerManager → View
view m q = if mem q m.timers then some (m.store q) else none

pub data Action : Type 0 where
  adds : ℕ → ℕ → ℕ → Func → Bool → Action
  cancels : ℕ → Action
  refreshes : ℕ → ℕ → Action
  expires : ℕ → Action

-- The methods, with the results of cancel and refresh, and true for the others.
unfoldable pub act : TimerManager → Action → TimerManager × Bool
unfolding add_timer cancel refresh get_expired_funcs
act m (adds p now period func recurring) = ((add_timer m p now period func recurring).0, true)
act m (cancels p) = cancel m p
act m (refreshes p now) = ((refresh m p now).0, (refresh m p now).1)
act m (expires now) = ((get_expired_funcs m now []).0, true)

unfoldable pub act_all : TimerManager → List Action → TimerManager × List Bool
unfolding act
act_all m [] = (m, [])
act_all m (a ∷ rest) = let (m', r) = act m a in let (last, rs) = act_all m' rest in (last, r ∷ rs)

-- What refresh makes of a timer, and what getExpiredFuncs leaves of one.
abbrev pub moved : ℕ → Option Timer → Option Timer
moved now none = none
moved now (some t) = some (record t { next = u64 (now + t.period) })

abbrev pub outlives : ℕ → Option Timer → Option Timer
outlives now none = none
outlives now (some t) =
    if leb t.next now
    then (if t.recurring then some (record t { next = u64 (t.next + t.period) }) else none)
    else some t

-- The same on the map.
abbrev pub does : View → Action → View × Bool
does v (adds p now period func recurring) =
    (update v p (some (new_timer now period func recurring)), true)
does v (cancels p) = (update v p none, is_some (v p))
does v (refreshes p now) = (update v p (moved now (v p)), is_some (v p))
does v (expires now) = ((λ q. outlives now (v q)), true)

abbrev pub does_all : View → List Action → View × List Bool
does_all v [] = (v, [])
does_all v (a ∷ rest) =
    ((does_all (does v a).0 rest).0, (does v a).1 ∷ (does_all (does v a).0 rest).1)

-- A new timer stands at an address that no timer of the set has.
abbrev pub IsFresh : View → Action → Type 0
IsFresh v (adds p now period func recurring) = v p ≡ none
IsFresh v _ = Unit {0}

abbrev pub AllFresh : View → List Action → Type 0
AllFresh v [] = Unit {0}
AllFresh v (a ∷ rest) = IsFresh v a × AllFresh (does v a).0 rest
