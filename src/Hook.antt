-- ===== src/Hook.antt =====
-- src/hook.cpp, the part that changes what the FdManager knows: fcntl, ioctl and setsockopt. The
-- system calls that they wrap (fcntl_f and so on) are the parameter System. An int of flags is its
-- O_NONBLOCK and the other bits. What a get that creates would use (what fstat and fcntl tell, and
-- the address of the new object) is an argument.
pub mod Flags
pub mod Io
pub mod Calls
pub mod Sleep
pub mod Originals
mod Tests
use eva.Base.{
  ℕ, ◌+◌, ◌*◌, ◌/◌, Bool, true, false, not, ◌&&◌, ◌||◌, Option, none, some, if◌then◌else◌, u64, ℤ,
  Outcome, ok, abort, ◌>>=◌, update, ◌≡◌,
}
use eva.FdManager.{
  FdCtx, FdInfo, FdManager, get, del, set_user_nonblock, set_timeout, TimeoutType, so_rcvtimeo,
  other_type,
}

-- A 32-bit int that holds flags; -1, the result of a call that failed, has all bits.
pub record FlagBits : Type 0 where
  pub nonblock : Bool
  pub others : ℕ

-- The commands of fcntl: F_SETFL with its argument, F_GETFL, those that are passed on with an
-- argument, and those that are passed on without one.
pub data FcntlCall : Type 0 where
  setfl : FlagBits → FcntlCall
  getfl : FcntlCall
  with_arg : ℕ → ℕ → FcntlCall
  bare : ℕ → FcntlCall

pub data IoctlCall : Type 0 where
  fionbio : Bool → IoctlCall
  other_request : ℕ → IoctlCall

-- The options of setsockopt: a timeout at the level SOL_SOCKET, in seconds and microseconds, or any
-- other.
pub data SockOpt : Type 0 where
  timeout : TimeoutType → ℕ → ℕ → SockOpt
  other_opt : ℕ → SockOpt

-- The system's calls. After a call of F_SETFL that did not fail, F_GETFL gives its O_NONBLOCK.
pub record System : Type 1 where
  pub Kernel : Type 0
  pub fcntl_f : ℤ → FcntlCall → Kernel → Kernel × FlagBits
  pub ioctl_f : ℤ → IoctlCall → Kernel → Kernel × FlagBits
  pub setsockopt_f : ℤ → SockOpt → Kernel → Kernel × ℤ
  pub getsockopt_f : ℤ → SockOpt → Kernel → Kernel × ℤ
  pub failed : FlagBits
  pub setfl_effect :
      (fd : ℤ) (a : FlagBits) (k : Kernel)
      → ¬ ((fcntl_f fd (setfl a) k).1 ≡ failed)
      → (fcntl_f fd getfl (fcntl_f fd (setfl a) k).0).1.nonblock ≡ a.nonblock

pub record World (sys : System) : Type 0 where
  pub fds : FdManager
  pub kernel : sys.Kernel

-- `!ctx || ctx->isClose() || !ctx->isSocket()`, and otherwise the object's address.
unfoldable pub hooked_socket : FdManager → Option ℕ → Option ℕ
hooked_socket m none = none
hooked_socket m (some p) =
    if (m.store p).is_closed || not (m.store p).is_socket then none else some p

module _ (sys : System) (info : FdInfo) (fresh : ℕ) where
  -- Passes a call on to the system.
  abbrev pub pass :
      {R : Type 0}
      → (sys.Kernel → sys.Kernel × R)
      → FdManager
      → sys.Kernel
      → Outcome (World sys × R)
  pass f m k = ok (record { fds = m; kernel = (f k).0 }, (f k).1)

  -- The case F_SETFL, after the lookup.
  unfoldable pub set_flags :
      ℤ → FlagBits → FdManager → sys.Kernel → Option ℕ → Outcome (World sys × FlagBits)
  set_flags fd a m k none = pass (sys.fcntl_f fd (setfl a)) m k
  set_flags fd a m k (some p) =
      let c : FdCtx = set_user_nonblock (m.store p) a.nonblock in
      pass (sys.fcntl_f fd (setfl (record a { nonblock = c.sys_nonblock })))
        (record m { store = update m.store p c }) k

  -- The case F_GETFL, after the lookup; `arg` is what the system gave.
  unfoldable pub user_flags : FdManager → FlagBits → Option ℕ → FlagBits
  user_flags m arg none = arg
  user_flags m arg (some p) = record arg { nonblock = (m.store p).user_nonblock }

  unfoldable pub fcntl : World sys → ℤ → FcntlCall → Outcome (World sys × FlagBits)
  unfolding get hooked_socket set_flags user_flags
  fcntl w fd (setfl a) =
      get info w.fds fd false fresh >>= (λ g. set_flags fd a g.0 w.kernel (hooked_socket g.0 g.1))
  fcntl w fd getfl =
      let r : sys.Kernel × FlagBits = sys.fcntl_f fd getfl w.kernel in
      get info w.fds fd false fresh
      >>= (λ g. ok (record { fds = g.0; kernel = r.0 }, user_flags g.0 r.1 (hooked_socket g.0 g.1)))
  fcntl w fd (with_arg cmd arg) = pass (sys.fcntl_f fd (with_arg cmd arg)) w.fds w.kernel
  fcntl w fd (bare cmd) = pass (sys.fcntl_f fd (bare cmd)) w.fds w.kernel

  unfoldable pub set_nonblock : Bool → FdManager → Option ℕ → FdManager
  set_nonblock b m none = m
  set_nonblock b m (some p) = record m {
    store = update m.store p (set_user_nonblock (m.store p) b);
  }

  unfoldable pub ioctl : World sys → ℤ → IoctlCall → Outcome (World sys × FlagBits)
  unfolding get hooked_socket set_nonblock
  ioctl w d (fionbio b) = get info w.fds d false fresh >>= (λ g.
      pass (sys.ioctl_f d (fionbio b)) (set_nonblock b g.0 (hooked_socket g.0 g.1)) w.kernel)
  ioctl w d (other_request r) = pass (sys.ioctl_f d (other_request r)) w.fds w.kernel

  unfoldable pub keep_timeout : TimeoutType → ℕ → FdManager → Option ℕ → FdManager
  keep_timeout t v m none = m
  keep_timeout t v m (some p) = record m { store = update m.store p (set_timeout (m.store p) t v) }

  -- The option's value is what the system writes.
  unfoldable pub getsockopt : World sys → ℤ → SockOpt → Outcome (World sys × ℤ)
  getsockopt w fd o = pass (sys.getsockopt_f fd o) w.fds w.kernel

  -- The first argument is t_hooked of the calling thread.
  unfoldable pub setsockopt : Bool → World sys → ℤ → SockOpt → Outcome (World sys × ℤ)
  unfolding get keep_timeout
  setsockopt false w fd o = pass (sys.setsockopt_f fd o) w.fds w.kernel
  setsockopt true w fd (timeout t sec usec) = get info w.fds fd false fresh >>= (λ g.
      pass (sys.setsockopt_f fd (timeout t sec usec))
        (keep_timeout t (u64 (sec * 1000 + usec / 1000)) g.0 g.1) w.kernel)
  setsockopt true w fd (other_opt o) = pass (sys.setsockopt_f fd (other_opt o)) w.fds w.kernel
