-- ===== src/Hook/Io.antt =====
-- src/hook.cpp: do_io, which every hooked read and write goes through, over the FdManager, the
-- IOManager and its timers.
-- What the code does not decide is an oracle: `answer k` is the result of the k-th call of the
-- wrapped system call, and `turn j` tells what happens while the fiber has yielded for the j-th time.
-- The loops take fuel.
pub mod Answers
pub mod Waits
pub mod Samples
mod Tests
use eva.Base.{
  ℕ, zero, suc, ◌+◌, Bool, true, false, not, ◌&&◌, ◌||◌, List, [], ◌∷◌, ◌++◌, Option, none, some,
  ◌==◌, if◌then◌else◌, u64_max, is_some, ℤ, Outcome, ok, abort, undefined, ◌>>=◌,
}
use eva.Timer.{TimerManager, add_timer, cancel}
use eva.FdManager.{FdCtx, FdInfo, FdManager, get, get_timeout, TimeoutType}
use eva.IoManager.{Event, Mask, Epoll, Caller, IoManager}
use eva.IoManager.Manager.{Request, cancels, add_event, requests}

abbrev pub ebadf : ℕ
ebadf = 9

abbrev pub eintr : ℕ
eintr = 4

abbrev pub eagain : ℕ
eagain = 11

abbrev pub etimedout : ℕ
etimedout = 110

-- A result that is not -1, or -1 with errno.
pub data Answer : Type 0 where
  returned : ℕ → Answer
  failed : ℕ → Answer

-- One wait: the clock, the address and the number of the function of the timer that is made, whether
-- this timer expires, the requests to the IOManager before and after it does, and the set of timers
-- when the fiber goes on. `errno` is what a failing addEvent would leave.
pub record Turn : Type 0 where
  pub now : ℕ
  pub address : ℕ
  pub callback : ℕ
  pub expires : Bool
  pub before : List Request
  pub after : List Request
  pub timers : TimerManager
  pub errno : ℕ

-- `calls` and `turns` count the calls of the system and the waits.
pub record IoWorld (ep : Epoll) : Type 0 where
  pub fds : FdManager
  pub iom : IoManager ep
  pub timers : TimerManager
  pub calls : ℕ
  pub turns : ℕ

-- What an answer means to the loops.
abbrev pub is_error : ℕ → Answer → Bool
is_error err (returned n) = false
is_error err (failed e) = e == err

-- `if(timer) timer->cancel();`
unfoldable pub cancel_timer : Option ℕ → TimerManager → TimerManager
cancel_timer none m = m
cancel_timer (some p) m = (cancel m p).0

-- The timer of a wait, where a timeout is set.
unfoldable pub start_timer : ℕ → Turn → TimerManager → TimerManager × Option ℕ
start_timer to t m =
    if to == u64_max
    then (m, none)
    else ((add_timer m t.address t.now to t.callback false).0, some t.address)

-- What the IOManager is asked for while the fiber has yielded: the function of the timer cancels the
-- event.
abbrev pub meanwhile : ℤ → Event → Turn → Bool → List Request
meanwhile fd e t fires = t.before ++ (if fires then cancels fd e ∷ t.after else t.after)

module _ (ep : Epoll) (garbage : ℕ → Mask) (who : Caller) (answer : ℕ → Answer) (turn : ℕ → Turn)
    (fd : ℤ) (event : Event) where
  abbrev pub Run : Type 0
  Run = Option (Outcome (IoWorld ep × Answer))

  -- One call of `fun`.
  abbrev pub call_fun : IoWorld ep → IoWorld ep × Answer
  call_fun w = (record w { calls = w.calls + 1 }, answer w.calls)

  -- The call and the loop on EINTR.
  unfoldable pub call_again : ℕ → IoWorld ep → Option (IoWorld ep × Answer)
  call_again zero w = none
  call_again (suc fuel) w =
      let more : Option (IoWorld ep × Answer) =
        call_again fuel (record w { calls = w.calls + 1 }) in
      if is_error eintr (answer w.calls) then more else some (call_fun w)

  -- Behind EAGAIN: the timer, addEvent, Yield. The errno is there where do_io returns -1.
  unfoldable pub wait : ℕ → IoWorld ep → Outcome (IoWorld ep × Option ℕ)
  unfolding cancel_timer start_timer add_event requests
  wait to w =
      let t : Turn = turn w.turns in
      let timer : TimerManager × Option ℕ = start_timer to t w.timers in
      let fires : Bool = is_some timer.1 && t.expires in
      add_event ep garbage who w.iom fd event none >>= (λ r.
        if not r.1
        then ok (record w { iom = r.0; timers = cancel_timer timer.1 timer.0 }, some t.errno)
        else (requests ep garbage r.0 (meanwhile fd event t fires) >>= (λ iom. ok (
          record w { iom = iom; timers = cancel_timer timer.1 t.timers; turns = w.turns + 1 },
          (if fires then some etimedout else none),
        ))))

  unfoldable pub resume : (IoWorld ep → Run) → Outcome (IoWorld ep × Option ℕ) → Run
  resume next abort = some abort
  resume next undefined = some undefined
  resume next (ok (w, none)) = next w
  resume next (ok (w, some e)) = some (ok (w, failed e))

  unfoldable pub after_call : (IoWorld ep → Run) → ℕ → Option (IoWorld ep × Answer) → Run
  unfolding resume wait
  after_call next to none = none
  after_call next to (some (w, r)) =
      if is_error eagain r then resume next (wait to w) else some (ok (w, r))

  -- From the label retry on; none where the fuel runs out.
  unfoldable pub retry : ℕ → ℕ → IoWorld ep → Run
  unfolding after_call call_again
  retry zero to w = none
  retry (suc fuel) to w = after_call (retry fuel to) to (call_again fuel w)

  abbrev pub once : IoWorld ep → Run
  once w = some (ok (call_fun w))

  -- The tests on the FdCtx.
  unfoldable pub with_ctx : ℕ → TimeoutType → IoWorld ep → Option ℕ → Run
  unfolding retry
  with_ctx fuel so w none = once w
  with_ctx fuel so w (some p) =
      let ctx : FdCtx = w.fds.store p in
      if ctx.is_closed
      then some (ok (w, failed ebadf))
      else if not ctx.is_socket || ctx.user_nonblock
      then once w
      else retry fuel (get_timeout ctx so) w

  unfoldable pub found_ctx : ℕ → TimeoutType → IoWorld ep → Outcome (FdManager × Option ℕ) → Run
  unfolding with_ctx
  found_ctx fuel so w abort = some abort
  found_ctx fuel so w undefined = some undefined
  found_ctx fuel so w (ok (fds, o)) = with_ctx fuel so (record w { fds = fds }) o

  -- `hooked` is t_hooked; info and fresh are what a get that creates would use.
  unfoldable pub do_io : FdInfo → ℕ → Bool → ℕ → TimeoutType → IoWorld ep → Run
  unfolding found_ctx get
  do_io info fresh false fuel so w = once w
  do_io info fresh true fuel so w = found_ctx fuel so w (get info w.fds fd false fresh)
