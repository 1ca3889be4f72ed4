-- ===== src/Timer.antt =====
-- src/timer.h and src/timer.cpp: the timers of one manager.
-- The state of a TimerManager and its operations. A Timer::ptr is the address of the object in a
-- store; the std::set of pointers is the list of its elements in the set's order. Each operation
-- runs under the manager's lock. The clock is an argument.
pub mod Order
pub mod Expiry
pub mod Expired
pub mod Updates
pub mod Wait
pub mod View
pub mod Gap
mod Tests
use eva.Base.{
  ℕ, ◌+◌, ◌-◌, Bool, true, false, not, List, [], ◌∷◌, ◌++◌, Option, none, some, ltb, leb, ◌==◌,
  if◌then◌else◌, u64, u64_max, update, is_empty,
}

-- A std::function<void()> is known by a number.
abbrev pub Func : Type 0
Func = ℕ

pub record Timer : Type 0 where
  pub period : ℕ
  pub next : ℕ
  pub func : Func
  pub recurring : Bool

pub record TimerManager : Type 0 where
  pub store : ℕ → Timer
  pub timers : List ℕ

-- Timer::cmp; `none` is the null pointer.
unfoldable pub cmp : (ℕ → Timer) → Option ℕ → Option ℕ → Bool
cmp h none none = false
cmp h none (some b) = true
cmp h (some a) none = false
cmp h (some a) (some b) =
    if ltb (h a).next (h b).next then true else if ltb (h b).next (h a).next then false else ltb a b

-- std::set::insert: an element that is equivalent to one of the set is not added.
unfoldable pub insert : (ℕ → Timer) → ℕ → List ℕ → List ℕ
unfolding cmp
insert h p [] = p ∷ []
insert h p (q ∷ qs) =
    if cmp h (some p) (some q)
    then p ∷ q ∷ qs
    else if cmp h (some q) (some p)
    then q ∷ insert h p qs
    else q ∷ qs

-- std::set::erase by key: the set left, and whether the returned count is 1.
unfoldable pub erase : (ℕ → Timer) → ℕ → List ℕ → List ℕ × Bool
unfolding cmp
erase h p [] = ([], false)
erase h p (q ∷ qs) =
    let (rest, hit) = erase h p qs in
    if cmp h (some q) (some p)
    then (q ∷ rest, hit)
    else if cmp h (some p) (some q)
    then (q ∷ qs, false)
    else (qs, true)

-- `it == m_timers.begin()` for the iterator at p.
abbrev pub is_begin : ℕ → List ℕ → Bool
is_begin p [] = false
is_begin p (q ∷ qs) = p == q

-- The constructor Timer(period, func, recurring, this) at the time now.
unfoldable pub new_timer : ℕ → ℕ → Func → Bool → Timer
new_timer now period func recurring = record {
  period = period;
  next = u64 (now + period);
  func = func;
  recurring = recurring;
}

-- void addTimer(Timer::ptr): the Boolean is `changed`, which calls onFirstTimerChanged.
unfoldable pub add_ptr : TimerManager → ℕ → TimerManager × Bool
unfolding insert
add_ptr m p = let ts = insert m.store p m.timers in (record m { timers = ts }, is_begin p ts)

-- addTimer(period, func, recurring): p is the address that make_shared gives.
unfoldable pub add_timer : TimerManager → ℕ → ℕ → ℕ → Func → Bool → TimerManager × Bool
unfolding add_ptr new_timer
add_timer m p now period func recurring =
    add_ptr (record m { store = update m.store p (new_timer now period func recurring) }) p

unfoldable pub cancel : TimerManager → ℕ → TimerManager × Bool
unfolding erase
cancel m p = let (ts, hit) = erase m.store p m.timers in (record m { timers = ts }, hit)

-- refresh: the result, and whether the first timer changed.
unfoldable pub refresh : TimerManager → ℕ → ℕ → TimerManager × Bool × Bool
unfolding erase add_ptr
refresh m p now =
    let (ts, hit) = erase m.store p m.timers in
    let t : Timer = m.store p in
    let moved : Timer = record t { next = u64 (now + t.period) } in
    let (m', changed) = add_ptr (record { store = update m.store p moved; timers = ts }) p in
    if hit then (m', true, changed) else (record m { timers = ts }, false, false)

unfoldable pub has_timers : TimerManager → Bool
has_timers m = not (is_empty m.timers)

next_of : (ℕ → Timer) → ℕ → List ℕ → ℕ
next_of h now [] = u64_max
next_of h now (p ∷ ps) = if ltb now (h p).next then (h p).next - now else 0

unfoldable pub get_next_time_ms : TimerManager → ℕ → ℕ
unfolding next_of
get_next_time_ms m now = next_of m.store now m.timers

-- The first loop of getExpiredFuncs: the timers that stay, and `expired_timers`.
unfoldable pub take_expired : (ℕ → Timer) → ℕ → List ℕ → List ℕ × List ℕ
take_expired h now [] = ([], [])
take_expired h now (p ∷ ps) =
    let (stay, gone) = take_expired h now ps in
    if leb (h p).next now then (stay, p ∷ gone) else (p ∷ stay, gone)

unfoldable pub funcs_of : (ℕ → Timer) → List ℕ → List Func
funcs_of h [] = []
funcs_of h (p ∷ ps) = (h p).func ∷ funcs_of h ps

-- One round of the second loop: a recurring timer is moved on by its period and put back.
unfoldable pub rearm_one : TimerManager → ℕ → TimerManager
unfolding insert
rearm_one m p =
    let t : Timer = m.store p in
    let h = update m.store p (record t { next = u64 (t.next + t.period) }) in
    if t.recurring then record { store = h; timers = insert h p m.timers } else m

unfoldable pub rearm : TimerManager → List ℕ → TimerManager
unfolding rearm_one
rearm m [] = m
rearm m (p ∷ ps) = rearm (rearm_one m p) ps

-- getExpiredFuncs(funcs): the manager left, and `funcs` with the expired functions at its end.
unfoldable pub get_expired_funcs : TimerManager → ℕ → List Func → TimerManager × List Func
unfolding take_expired funcs_of rearm
get_expired_funcs m now funcs =
    let (stay, gone) = take_expired m.store now m.timers in
    if is_empty m.timers
    then (m, funcs)
    else (rearm (record m { timers = stay }) gone, funcs ++ funcs_of m.store gone)

-- OnTimer(weak_cond, cb): the callback runs if the condition is still alive.
unfoldable pub on_timer {ℓ} : {S : Type ℓ} → Bool → (S → S) → S → S
on_timer alive cb s = if alive then cb s else s

-- addConditionTimer: bind_on_timer gives the number of std::bind(&OnTimer, weak_cond, cb).
unfoldable pub add_condition_timer :
    (ℕ → Func → Func) → TimerManager → ℕ → ℕ → ℕ → Func → ℕ → Bool → TimerManager × Bool
unfolding add_timer
add_condition_timer bind_on_timer m p now ms cb weak_cond recurring =
    add_timer m p now ms (bind_on_timer weak_cond cb) recurring
