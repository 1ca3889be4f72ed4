-- ===== src/Timer/View/Refines.antt =====
-- The set of timers implements the map.
use eva.Base.{ℕ, ◌≡◌, refl, sym, ap, subst, fun_ext, ◌∙◌, List, [], ◌∷◌, arith}
use eva.Timer.{TimerManager, new_timer}
use eva.Timer.Order.{IsSorted}
use eva.Timer.Expired.{get_expired_funcs-IsSorted, get_expired_funcs_rest}
use eva.Timer.Updates.{add_timer_lem, cancel_lem, refresh_lem}
use eva.Timer.View.{
  View, view, Action, adds, cancels, refreshes, expires, act, act_all, does, does_all, IsFresh,
  AllFresh,
}

act-does :
    (m : TimerManager) (a : Action) (q : ℕ)
    → IsSorted m.store m.timers
    → IsFresh (view m) a
    → (view (act m a).0 q ≡ (does (view m) a).0 q)
      × ((act m a).1 ≡ (does (view m) a).1)
      × IsSorted (act m a).0.store (act m a).0.timers
unfolding act new_timer
act-does m (adds p now period func recurring) q s f =
    let (so, members, store) = add_timer_lem m p now period func recurring (ground arith) s in
    (ground (arith, members q, store q), refl, so)
act-does m (cancels p) q s f =
    let (hit, so, members, store) = cancel_lem m p s in
    (ground (arith, members q, store), ground (arith, hit), ground (arith, so, store))
act-does m (refreshes p now) q s f =
    let (hit, so, members, store) = refresh_lem m p now q s in
    (ground (arith, members, store), ground (arith, hit), so)
act-does m (expires now) q s f =
    let (members, store) = get_expired_funcs_rest m now [] q s in
    (ground (arith, members, store), refl, get_expired_funcs-IsSorted m now [] s)

-- From a sorted set, whatever is done to the timers by adding new ones, cancelling, refreshing and
-- expiring them, the set stays sorted, and its timers and the results are those of the map.
pub act_all-does_all :
    (m : TimerManager) (acts : List Action)
    → IsSorted m.store m.timers
    → AllFresh (view m) acts
    → (view (act_all m acts).0 ≡ (does_all (view m) acts).0)
      × ((act_all m acts).1 ≡ (does_all (view m) acts).1)
      × IsSorted (act_all m acts).0.store (act_all m acts).0.timers
unfolding act_all
act_all-does_all m [] s f = (refl, refl, s)
act_all-does_all m (a ∷ rest) s f =
    let m' = (act m a).0 in
    let e : view m' ≡ (does (view m) a).0 = fun_ext (λ q. (act-does m a q s f.0).0) in
    let one = act-does m a 0 s f.0 in
    let (v, r, so) =
      act_all-does_all m' rest one.2 (subst (λ (w : View). AllFresh w rest) (sym e) f.1) in
    (
      v ∙ ap (λ (w : View). (does_all w rest).0) e,
      ap (λ b. b ∷ (act_all m' rest).1) one.1
          ∙ ap (λ l. (does (view m) a).1 ∷ l) (r ∙ ap (λ (w : View). (does_all w rest).1) e),
      so,
    )
