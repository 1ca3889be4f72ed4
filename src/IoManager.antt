-- ===== src/IoManager.antt =====
-- src/iomanager.h and src/iomanager.cpp: the events that fibers and functions wait for.
-- The bits 0x1 and 0x4 of an event mask are READ and WRITE, which are EPOLLIN and EPOLLOUT; no other
-- bit of `events` is set or tested by the code. The kernel's epoll instance is a parameter. An index
-- outside the vector and a null pointer that is followed end the process.
mod Contexts
pub mod Slots
pub mod Manager
pub mod Samples
pub mod Growth
pub mod Polling
use eva.Base.{
  ℕ, ◌+◌, Bool, true, false, not, ◌&&◌, ◌||◌, List, [], ◌∷◌, ◌++◌, Option, none, some,
  if◌then◌else◌, u64, dec64, is_some, Outcome, ok, assert, ◌>>=◌, ◌>>◌,
}
unfoldable pub use Contexts.*
use eva.Fiber.{is_running}
use eva.Scheduler.{Task}

module _ (ep : Epoll) where
  open ep use {Kernel, ctl}

  -- What one operation on one descriptor reads and writes: the context, the kernel, m_pending_count,
  -- and the calls of schedule so far, as pairs of a scheduler and a task.
  pub record Slot : Type 0 where
    pub ctx : FdContext
    pub kernel : Kernel
    pub pending_count : ℕ
    pub sent : List (ℕ × Task)

  pub record IoManager : Type 0 where
    pub contexts : List FdContext
    pub kernel : Kernel
    pub pending_count : ℕ
    pub sent : List (ℕ × Task)

  -- addEvent, once it has the context.
  unfoldable pub add_slot : Caller → Slot → ℕ → Event → Option ℕ → Outcome Slot
  add_slot who s fd e func = do
    let ctx = s.ctx
    assert (not (has ctx.events e))
    k ← or_abort (ctl (op_adding ctx.events) fd (plus ctx.events e) s.kernel)
    x ← get_context ctx e
    assert (not (is_some x.scheduler) && not (is_some x.fiber) && not (is_some x.func))
    assert (is_some func || is_running who.state)
    ok (record {
      ctx =
          put_context (record ctx { events = plus ctx.events e }) e
            (record {
              scheduler = who.scheduler;
              fiber = (if is_some func then none else some who.fiber);
              func = func;
            });
      kernel = k;
      pending_count = u64 (s.pending_count + 1);
      sent = s.sent;
    })

  -- delEvent, once it has the context.
  unfoldable pub del_slot : Slot → ℕ → Event → Outcome (Slot × Bool)
  del_slot s fd e =
      let left = minus s.ctx.events e in
      if not (has s.ctx.events e) then ok (s, false) else do
        k ← or_abort (ctl (op_leaving left) fd left s.kernel)
        c ← reset_context (record s.ctx { events = left }) e
        ok (record s { ctx = c; kernel = k; pending_count = dec64 s.pending_count }, true)

  -- `--m_pending_count` and FdContext::scheduleEvent.
  unfoldable pub fire : Slot → Event → Outcome Slot
  unfolding schedule_context
  fire s e = do
    (c, target, tk) ← schedule_context s.ctx e
    ok (record s {
      ctx = c;
      pending_count = dec64 s.pending_count;
      sent = s.sent ++ ((target, tk) ∷ []);
    })

  -- cancelEvent, once it has the context.
  unfoldable pub cancel_slot : Slot → ℕ → Event → Outcome (Slot × Bool)
  unfolding fire
  cancel_slot s fd e =
      let left = minus s.ctx.events e in
      if not (has s.ctx.events e) then ok (s, false) else do
        k ← or_abort (ctl (op_leaving left) fd left s.kernel)
        s' ← fire (record s { kernel = k }) e
        ok (s', true)

  -- `if (events & e) { scheduleEvent(e); --m_pending_count; }`.
  unfoldable pub fire_if : Bool → Slot → Event → Outcome Slot
  unfolding fire
  fire_if b s e = if b then fire s e else ok s

  -- cancelAll, once it has the context.
  unfoldable pub cancel_all_slot : Slot → ℕ → Outcome (Slot × Bool)
  unfolding fire_if
  cancel_all_slot s fd =
      if not (is_set s.ctx.events) then ok (s, false) else elim (ctl ctl_del fd no_bits s.kernel) [
        | none ↦ ok (s, false)
        | some k ↦ do
          s' ← fire_if s.ctx.events.rd (record s { kernel = k }) read
          s'' ← fire_if s'.ctx.events.wr s' write
          assert (not (is_set s''.ctx.events))
          ok (s'', true)
      ]

  -- scheduleEvent(event) for the context that event.data.ptr points to. `got` holds EPOLLIN and
  -- EPOLLOUT of event.events, `failing` says whether EPOLLHUP or EPOLLERR is in it.
  unfoldable pub schedule_slot : Slot → Mask → Bool → Outcome (Slot × Bool)
  unfolding fire_if
  schedule_slot s got failing =
      let ev = s.ctx.events in
      let triggered = triggered_by ev got failing in
      let left = left_after ev triggered in
      if not (ev.rd && triggered.rd || ev.wr && triggered.wr)
      then ok (s, false)
      else elim (ctl (op_leaving left) s.ctx.fd left s.kernel) [
        | none ↦ ok (s, false)
        | some k ↦ do
          s' ← fire_if triggered.rd (record s { kernel = k }) read
          s'' ← fire_if triggered.wr s' write
          ok (s'', true)
      ]
