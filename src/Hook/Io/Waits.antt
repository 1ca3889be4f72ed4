-- ===== src/Hook/Io/Waits.antt =====
-- do_io of src/hook.cpp from its first wait on: the timeout, and the second wait.
use eva.Base.{Bool-cases, inl, inr}
use eva.Base.{
  ℕ, zero, suc, ◌+◌, ◌<◌, ◌≡◌, refl, ap, sym, ◌∙◌, Bool, true, ◌&&◌, Option, none, some,
  if◌then◌else◌, is_some, pos, Outcome, ok, abort, undefined, >>=-returns, arith,
}
use eva.FdManager.{FdInfo, get_timeout, TimeoutType}
use eva.FdManager.Lookup.{find}
use eva.IoManager.{Event, Mask, Epoll, Caller, IoManager, Slot, add_slot}
use eva.IoManager.Manager.{add_event, requests, return_true, make_room, focus}
use eva.IoManager.Manager.Results.{at_slot-ok}
use eva.IoManager.Manager.Once.{add_event_once}
use eva.Hook.Io.{
  Run, Answer, failed, Turn, IoWorld, is_error, eagain, etimedout, retry, after_call, do_io, wait,
  resume, start_timer, meanwhile,
}
use eva.Hook.Io.Answers.{Attempt, retry-Attempt, IsBlocking, do_io-retry}

module _ (ep : Epoll) (garbage : ℕ → Mask) (who : Caller) (answer : ℕ → Answer) (turn : ℕ → Turn)
    (n : ℕ) (event : Event) where
  -- The function of the timer runs while the fiber has yielded.
  abbrev pub expired : ℕ → IoWorld ep → Bool
  expired to w = is_some (start_timer to (turn w.turns) w.timers).1 && (turn w.turns).expires

  -- What a wait that returned has done.
  pub record Waited (to : ℕ) (w w1 : IoWorld ep) (o : Option ℕ) : Type 0 where
    pub joined : IoManager ep
    pub added : add_event ep garbage who w.iom (pos n) event none ≡ ok (joined, true)
    pub served :
        requests ep garbage joined (meanwhile (pos n) event (turn w.turns) (expired to w))
        ≡ ok w1.iom
    pub outcome : o ≡ (if expired to w then some etimedout else none)
    pub same_fds : w1.fds ≡ w.fds
    pub same_calls : w1.calls ≡ w.calls

  answer_of : IoWorld ep × Option ℕ → Outcome (IoWorld ep × Option ℕ) → IoWorld ep × Option ℕ
  answer_of q abort = q
  answer_of q undefined = q
  answer_of q (ok q') = q'

  returns_true :
      (o : Outcome (Slot ep)) (t : Slot ep) (b : Bool)
      → return_true ep garbage o ≡ ok (t, b)
      → b ≡ true
  returns_true abort t b h = cc
  returns_true undefined t b h = cc
  returns_true (ok s) t b h = cc

  add_event-true :
      (m m' : IoManager ep) (b : Bool)
      → add_event ep garbage who m (pos n) event none ≡ ok (m', b)
      → b ≡ true
  unfolding add_event
  add_event-true m m' b h =
      let f = λ (s : Slot ep). return_true ep garbage (add_slot ep who s n event none) in
      let (c, t, found, r, eq) = at_slot-ok ep garbage (make_room ep garbage m n) m' n b f h in
      returns_true (add_slot ep who (focus ep garbage (make_room ep garbage m n) c) n event none) t
        b r

  pub wait-Waited :
      (to : ℕ) (w w1 : IoWorld ep) (o : Option ℕ)
      → wait ep garbage who answer turn (pos n) event to w ≡ ok (w1, o)
      → Waited to w w1 o
  unfolding wait answer_of
  wait-Waited to w w1 o h =
      let (r, added, rest) = >>=-returns (add_event ep garbage who w.iom (pos n) event none) _ h in
      let added' : add_event ep garbage who w.iom (pos n) event none ≡ ok (r.0, true) =
        added ∙ ap (λ b. ok (r.0, b)) (add_event-true w.iom r.0 r.1 added) in
      let (iom, served, e) =
        >>=-returns
          (requests ep garbage r.0 (meanwhile (pos n) event (turn w.turns) (expired to w))) _
          (rw added' at h) in
      let e' = ap (answer_of (w1, o)) e in
      record {
        joined = r.0;
        added = added';
        served = served ∙ ap (λ (q : IoWorld ep × Option ℕ). ok q.0.iom) e';
        outcome = sym (ap (λ (q : IoWorld ep × Option ℕ). q.1) e');
        same_fds = sym (ap (λ (q : IoWorld ep × Option ℕ). q.0.fds) e');
        same_calls = sym (ap (λ (q : IoWorld ep × Option ℕ). q.0.calls) e');
      }

  -- A second wait for the same event of the descriptor.
  wait_again :
      (to to' : ℕ) (w w1 w2 : IoWorld ep) (o : Option ℕ)
      → Waited to w w1 o
      → w2.iom ≡ w1.iom
      → wait ep garbage who answer turn (pos n) event to' w2 ≡ abort
  unfolding wait
  wait_again to to' w w1 w2 o d e = rw e (
      rw (
        add_event_once ep garbage w.iom d.joined w1.iom who who n event none none true _ d.added
          d.served))

  -- An attempt after a wait that returned.
  after_second :
      (to to' m : ℕ) (w w1 : IoWorld ep) (o : Option ℕ) (r : Answer)
      (next : IoWorld ep → Run ep garbage who answer turn (pos n) event)
      → Waited to w w1 o
      → after_call ep garbage who answer turn
          (pos n)
          event
          next
          to'
          (some (record w1 { calls = w1.calls + m + 1 }, r))
        ≡ (if is_error eagain r
            then some abort
            else some (ok (record w1 { calls = w1.calls + m + 1 }, r)))
  unfolding after_call
  after_second to to' m w w1 o r next d = elim (Bool-cases (is_error eagain r)) [
    | inl y ↦ rw y (
        ap (resume ep garbage who answer turn (pos n) event next)
          (wait_again to to' w w1 (record w1 { calls = w1.calls + m + 1 }) o d refl))
    | inr done ↦ rw done
  ]

  -- The rest of retry, after a wait that returned.
  resumed :
      (fuel m to : ℕ) (w w1 : IoWorld ep) (o : Option ℕ) (r : Answer)
      → Waited to w w1 o
      → Attempt answer w1.calls m r
      → m < fuel
      → resume ep garbage who answer turn
          (pos n)
          event
          (retry ep garbage who answer turn (pos n) event (suc fuel) to)
          (ok (w1, o))
        ≡ (if expired to w
            then some (ok (w1, failed etimedout))
            else if is_error eagain r
            then some abort
            else some (ok (record w1 { calls = w1.calls + m + 1 }, r)))
  unfolding resume
  resumed fuel m to w w1 o r d a h = rw d.outcome (elim (Bool-cases (expired to w)) [
    | inl y ↦ rw y
    | inr late ↦ rw late (
        retry-Attempt ep garbage who answer turn (pos n) event fuel m to w1 r a h
        ∙ after_second to to m w w1 o r _ d)
  ])

-- On a descriptor whose object is an open, blocking socket, where the system call is interrupted m
-- times and then says EAGAIN, and where the wait returns (addEvent and what is asked of the IOManager
-- meanwhile included): if the timer of the timeout expires during the wait, do_io returns -1 with
-- ETIMEDOUT and makes no further call. Otherwise the next attempt, interrupted m' times, decides: its
-- result r' is returned, unless it says EAGAIN too; then the second addEvent ends the process. The
-- fuel is enough where it is more than the interruptions of either attempt and two more.
pub do_io_waited :
    (ep : Epoll) (garbage : ℕ → Mask) (who : Caller) (answer : ℕ → Answer) (turn : ℕ → Turn) (n : ℕ)
    (event : Event) (info : FdInfo) (fresh : ℕ) (w w1 : IoWorld ep) (o : Option ℕ) (p m m' fuel : ℕ)
    (so : TimeoutType) (r r' : Answer)
    → find w.fds n ≡ some p
    → IsBlocking (w.fds.store p)
    → Attempt answer w.calls m r
    → is_error eagain r ≡ true
    → wait ep garbage who answer turn
        (pos n)
        event
        (get_timeout (w.fds.store p) so)
        (record w { calls = w.calls + m + 1 })
      ≡ ok (w1, o)
    → Attempt answer w1.calls m' r'
    → m + 2 < fuel
    → m' + 2 < fuel
    → do_io ep garbage who answer turn (pos n) event info fresh true fuel so w ≡ (
        if expired ep garbage who answer turn n event (get_timeout (w.fds.store p) so) w
        then some (ok (w1, failed etimedout))
        else if is_error eagain r'
        then some abort
        else some (ok (record w1 { calls = w1.calls + m' + 1 }, r')))
unfolding after_call
do_io_waited ep garbage who answer turn n event info fresh w w1 o p m m' zero so r r' f b a e h a' l
      l' =
    absurd (omega arith)
do_io_waited ep garbage who answer turn n event info fresh w w1 o p m m' (suc zero) so r r' f b a e
      h a' l l' =
    absurd (omega arith)
do_io_waited ep garbage who answer turn n event info fresh w w1 o p m m' (suc (suc fuel)) so r r' f
      b a e h a' l l' =
    let to : ℕ = get_timeout (w.fds.store p) so in
    let w2 : IoWorld ep = record w { calls = w.calls + m + 1 } in
    do_io-retry ep garbage who answer turn n event info fresh w p (suc (suc fuel)) so f b
    ∙ retry-Attempt ep garbage who answer turn (pos n) event (suc fuel) m to w r a (omega arith)
    ∙ rw e (
        ap
          (resume ep garbage who answer turn (pos n) event
            (retry ep garbage who answer turn (pos n) event (suc fuel) to))
          h)
    ∙ resumed ep garbage who answer turn n event fuel m' to w2 w1 o r'
        (wait-Waited ep garbage who answer turn n event to w2 w1 o h) a' (omega arith)
