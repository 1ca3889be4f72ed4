-- ===== src/IoManager/Contexts.antt =====
-- src/iomanager.h: the events, the contexts of a descriptor, and the kernel's side.
use eva.Base.{
  ℕ, ◌≡◌, Bool, true, false, not, ◌&&◌, ◌||◌, Option, none, some, ◌==◌, if◌then◌else◌, minus_one,
  Outcome, ok, abort, assert, ◌>>=◌, ◌>>◌,
}
use eva.Fiber.{State, deref}
use eva.Scheduler.{Task, fiber_task, func_task}

pub data Event : Type 0 where
  no_event read write : Event

pub record Mask : Type 0 where
  pub rd : Bool
  pub wr : Bool

abbrev pub no_bits : Mask
no_bits = record { rd = false; wr = false }

abbrev pub is_set : Mask → Bool
is_set m = m.rd || m.wr

-- mask & event, mask | event and mask & ~event.
abbrev pub has : Mask → Event → Bool
has m no_event = false
has m read = m.rd
has m write = m.wr

abbrev pub plus : Mask → Event → Mask
plus m no_event = m
plus m read = record m { rd = true }
plus m write = record m { wr = true }

abbrev pub minus : Mask → Event → Mask
minus m no_event = m
minus m read = record m { rd = false }
minus m write = record m { wr = false }

pub record EventContext : Type 0 where
  pub scheduler : Option ℕ
  pub fiber : Option ℕ
  pub func : Option ℕ

abbrev pub no_context : EventContext
no_context = record { scheduler = none; fiber = none; func = none }

pub record FdContext : Type 0 where
  pub fd : ℕ
  pub reader : EventContext
  pub writer : EventContext
  pub events : Mask

abbrev pub get_context : FdContext → Event → Outcome EventContext
get_context c no_event = abort
get_context c read = ok c.reader
get_context c write = ok c.writer

-- Writing through the reference that getContext returns.
abbrev pub put_context : FdContext → Event → EventContext → FdContext
put_context c no_event x = c
put_context c read x = record c { reader = x }
put_context c write x = record c { writer = x }

-- FdContext::resetContext clears `auto event_ctx`, a copy of the context: the object stays as it is.
abbrev pub reset_context : FdContext → Event → Outcome FdContext
reset_context c e = get_context c e >>= λ copy. ok c

-- What an event context asks its scheduler to run.
abbrev pub task_of : EventContext → Outcome Task
task_of x = elim x.func [
  | some f ↦ ok (func_task minus_one f)
  | none ↦ elim x.fiber [ some f ↦ ok (fiber_task f minus_one) | none ↦ abort ]
]

-- FdContext::scheduleEvent: the object left, and the scheduler and task of the call of schedule. The
-- scheduler pointer is cleared in a copy of the context only.
unfoldable pub schedule_context : FdContext → Event → Outcome (FdContext × ℕ × Task)
schedule_context c e = do
  assert (has c.events e)
  copy ← get_context c e
  tk ← task_of copy
  target ← deref copy.scheduler
  ok (record c { events = minus c.events e }, target, tk)

pub data Op : Type 0 where
  ctl_add ctl_mod ctl_del : Op

-- What epoll_ctl leaves registered for its descriptor when it succeeds.
abbrev pub registers : Op → Mask → Option Mask
registers ctl_add m = some m
registers ctl_mod m = some m
registers ctl_del m = none

-- The kernel's epoll instance. `ctl` is epoll_ctl, with none where it does not return 0; the events
-- always carry EPOLLET. epoll_ctl(2): a success changes what is registered for this descriptor alone.
pub record Epoll : Type 1 where
  pub Kernel : Type 0
  pub ctl : Op → ℕ → Mask → Kernel → Option Kernel
  pub registered : Kernel → ℕ → Option Mask
  pub ctl_effect :
      (op : Op) (fd : ℕ) (m : Mask) (k k' : Kernel) (g : ℕ)
      → ctl op fd m k ≡ some k'
      → registered k' g ≡ (if fd == g then registers op m else registered k g)

-- The calling thread: Scheduler::GetThis, Fiber::GetThis and the state of that fiber.
pub record Caller : Type 0 where
  pub scheduler : Option ℕ
  pub fiber : ℕ
  pub state : State

abbrev pub or_abort : {A : Type 0} → Option A → Outcome A
or_abort none = abort
or_abort (some a) = ok a

-- `op` for the events that a descriptor has, and for those that are left to it.
abbrev pub op_adding : Mask → Op
op_adding m = if is_set m then ctl_mod else ctl_add

abbrev pub op_leaving : Mask → Op
op_leaving left = if is_set left then ctl_mod else ctl_del

-- `triggered_events`: on an error all events of the descriptor count as triggered.
abbrev pub triggered_by : Mask → Mask → Bool → Mask
triggered_by ev got failing = if failing then ev else got

-- events & ~triggered_events.
abbrev pub left_after : Mask → Mask → Mask
left_after ev triggered = record { rd = ev.rd && not triggered.rd; wr = ev.wr && not triggered.wr }
