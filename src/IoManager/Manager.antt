-- ===== src/IoManager/Manager.antt =====
-- src/iomanager.cpp: the vector of contexts, and the public methods over it.
pub mod Results
pub mod Vectors
pub mod Mirror
pub mod Once
mod Tests
use eva.Base.{
  ℕ, zero, suc, ◌+◌, ◌*◌, ◌/◌, Bool, true, false, List, [], ◌∷◌, Option, none, some, leb,
  if◌then◌else◌, length, get_elem?, set, ℤ, pos, negsuc, Outcome, ok, abort, undefined, ◌>>=◌, ◌>>◌,
}
use eva.IoManager.{
  Event, Mask, FdContext, no_context, Epoll, Caller, Slot, IoManager, or_abort, add_slot, del_slot,
  cancel_slot, cancel_all_slot, schedule_slot,
}

-- `new FdContext` for the descriptor i. The member `events` has no initialiser: `garbage i` is what
-- the memory holds.
abbrev pub new_context : (ℕ → Mask) → ℕ → FdContext
new_context garbage i = record {
  fd = i;
  reader = no_context;
  writer = no_context;
  events = garbage i;
}

-- resizeContexts(size) for the contexts from the index i on.
unfoldable pub resize_contexts : (ℕ → Mask) → ℕ → ℕ → List FdContext → List FdContext
resize_contexts garbage zero i cs = []
resize_contexts garbage (suc n) i [] = new_context garbage i ∷ resize_contexts garbage n (i + 1) []
resize_contexts garbage (suc n) i (c ∷ cs) = c ∷ resize_contexts garbage n (i + 1) cs

abbrev pub default_fd_contexts_size : ℕ
default_fd_contexts_size = 32

-- What a method asks of the manager; a caller's func is none for nullptr. `fires` is scheduleEvent
-- with the index of the context that event.data.ptr points to.
pub data Request : Type 0 where
  adds : Caller → ℤ → Event → Option ℕ → Request
  dels : ℤ → Event → Request
  cancels : ℤ → Event → Request
  cancels_all : ℤ → Request
  fires : ℕ → Mask → Bool → Request

module _ (ep : Epoll) (garbage : ℕ → Mask) where
  -- The constructor's resizeContexts.
  unfoldable pub init : ep.Kernel → IoManager ep
  unfolding resize_contexts
  init k = record {
    contexts = resize_contexts garbage default_fd_contexts_size 0 [];
    kernel = k;
    pending_count = 0;
    sent = [];
  }

  abbrev pub focus : IoManager ep → FdContext → Slot ep
  focus m c = record { ctx = c; kernel = m.kernel; pending_count = m.pending_count; sent = m.sent }

  abbrev pub put : IoManager ep → ℕ → Slot ep → IoManager ep
  put m n s = record {
    contexts = set m.contexts n s.ctx;
    kernel = s.kernel;
    pending_count = s.pending_count;
    sent = s.sent;
  }

  -- Runs an operation on the context at an index, and writes back what it leaves.
  abbrev pub write_back :
      IoManager ep → ℕ → Outcome (Slot ep × Bool) → Outcome (IoManager ep × Bool)
  write_back m n abort = abort
  write_back m n undefined = undefined
  write_back m n (ok (s, b)) = ok (put m n s, b)

  abbrev pub on_context :
      IoManager ep
      → ℕ
      → (Slot ep → Outcome (Slot ep × Bool))
      → Option FdContext
      → Outcome (IoManager ep × Bool)
  on_context m n f none = abort
  on_context m n f (some c) = write_back m n (f (focus m c))

  abbrev pub at_slot :
      IoManager ep → ℕ → (Slot ep → Outcome (Slot ep × Bool)) → Outcome (IoManager ep × Bool)
  at_slot m n f = on_context m n f (get_elem? m.contexts n)

  -- `if ((int)m_fd_contexts.size() <= fd) return false;`, then the context.
  abbrev pub at_fd :
      IoManager ep → ℤ → (ℕ → Slot ep → Outcome (Slot ep × Bool)) → Outcome (IoManager ep × Bool)
  at_fd m (negsuc n) f = abort
  at_fd m (pos n) f = if leb (length m.contexts) n then ok (m, false) else at_slot m n (f n)

  -- The resizing of addEvent, to fd * 1.5.
  abbrev pub make_room : IoManager ep → ℕ → IoManager ep
  make_room m n =
      if leb (length m.contexts) n
      then record m { contexts = resize_contexts garbage (n * 3 / 2) 0 m.contexts }
      else m

  -- addEvent returns true wherever it returns.
  abbrev pub return_true : Outcome (Slot ep) → Outcome (Slot ep × Bool)
  return_true abort = abort
  return_true undefined = undefined
  return_true (ok s) = ok (s, true)

  unfoldable pub add_event :
      Caller → IoManager ep → ℤ → Event → Option ℕ → Outcome (IoManager ep × Bool)
  unfolding add_slot resize_contexts
  add_event who m (negsuc n) e func = abort
  add_event who m (pos n) e func =
      at_slot (make_room m n) n (λ s. return_true (add_slot ep who s n e func))

  unfoldable pub del_event : IoManager ep → ℤ → Event → Outcome (IoManager ep × Bool)
  unfolding del_slot
  del_event m fd e = at_fd m fd (λ n s. del_slot ep s n e)

  unfoldable pub cancel_event : IoManager ep → ℤ → Event → Outcome (IoManager ep × Bool)
  unfolding cancel_slot
  cancel_event m fd e = at_fd m fd (λ n s. cancel_slot ep s n e)

  unfoldable pub cancel_all : IoManager ep → ℤ → Outcome (IoManager ep × Bool)
  unfolding cancel_all_slot
  cancel_all m fd = at_fd m fd (λ n s. cancel_all_slot ep s n)

  unfoldable pub schedule_event : IoManager ep → ℕ → Mask → Bool → Outcome (IoManager ep × Bool)
  unfolding schedule_slot
  schedule_event m n got failing = at_slot m n (λ s. schedule_slot ep s got failing)

  unfoldable pub request : IoManager ep → Request → Outcome (IoManager ep × Bool)
  unfolding add_event del_event cancel_event cancel_all schedule_event
  request m (adds who fd e func) = add_event who m fd e func
  request m (dels fd e) = del_event m fd e
  request m (cancels fd e) = cancel_event m fd e
  request m (cancels_all fd) = cancel_all m fd
  request m (fires n got failing) = schedule_event m n got failing

  unfoldable pub requests : IoManager ep → List Request → Outcome (IoManager ep)
  unfolding request
  requests m [] = ok m
  requests m (r ∷ rs) = request m r >>= λ p. requests p.0 rs
