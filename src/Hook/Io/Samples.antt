-- ===== src/Hook/Io/Samples.antt =====
-- Sample states of src/hook.cpp over an epoll instance that accepts every call, for the tests.
use eva.Base.{ℕ, true, false, [], ◌∷◌, none, some, Outcome, ok, abort, undefined}
use eva.Timer.{TimerManager, Timer}
use eva.FdManager.{FdCtx, FdInfo}
use eva.IoManager.{no_bits, no_context, FdContext}
pub use eva.IoManager.Samples.{Table, epoll, clean, caller}
unfoldable pub use eva.IoManager.Samples.{take_all}
use eva.Hook.Io.{Answer, failed, Turn, IoWorld}

abbrev pub socket : FdCtx
socket = record {
  is_init = true;
  is_socket = true;
  sys_nonblock = true;
  user_nonblock = false;
  is_closed = false;
  fd = 1;
  recv_timeout = 100;
  send_timeout = 100;
}

abbrev pub context : ℕ → FdContext
context i = record { fd = i; reader = no_context; writer = no_context; events = no_bits }

abbrev pub some_timer : Timer
some_timer = record { period = 0; next = 0; func = 0; recurring = false }

abbrev pub no_timers : TimerManager
no_timers = record { store = λ p. some_timer; timers = [] }

abbrev pub start_world : IoWorld epoll
start_world = record {
  fds = record { store = λ p. socket; datas = none ∷ some 6 ∷ [] };
  iom = record {
    contexts = context 0 ∷ context 1 ∷ [];
    kernel = λ fd. none;
    pending_count = 0;
    sent = [];
  };
  timers = no_timers;
  calls = 0;
  turns = 0;
}

abbrev pub quiet : ℕ → Turn
quiet j = record {
  now = 1000;
  address = 9;
  callback = 2;
  expires = false;
  before = [];
  after = [];
  timers = no_timers;
  errno = 11;
}

abbrev pub file_info : FdInfo
file_info = record { stat = some false; nonblock = false }

-- The descriptor is never ready.
abbrev pub never : ℕ → Answer
never k = failed 11

abbrev pub value_or : {A : Type 0} → Outcome A → A → A
value_or abort d = d
value_or undefined d = d
value_or (ok a) d = a
