-- ===== src/Hook/Tests.antt =====
-- The hooked fcntl of src/hook.cpp over a system that keeps the flags of each descriptor.
use eva.Base.{◌≤◌, ◌<◌, ◌+◌, ◌*◌, u32}
use eva.Timer.{TimerManager}
use eva.Hook.Sleep.{sleep, nanosleep, asked, nap, nap_lem}
use eva.Base.{
  ℕ, ◌≡◌, refl, true, false, [], ◌∷◌, none, some, pos, negsuc, ℤ, ok, update, ap, arith, ==_self,
}
use eva.FdManager.{FdCtx, FdInfo}
use eva.Hook.{FlagBits, FcntlCall, setfl, getfl, with_arg, bare, System, World, fcntl}
use eva.Hook.Flags.{system_flags, getfl-setfl}

abbrev Flags : Type 0
Flags = ℕ → FlagBits

abbrev zero_flags : FlagBits
zero_flags = record { nonblock = false; others = 0 }

abbrev minus_one : FlagBits
minus_one = record { nonblock = true; others = 4294965247 }

keep : ℤ → FcntlCall → Flags → Flags × FlagBits
keep (negsuc n) call k = (k, minus_one)
keep (pos n) (setfl a) k = (update k n a, zero_flags)
keep (pos n) getfl k = (k, k n)
keep (pos n) (with_arg cmd arg) k = (k, zero_flags)
keep (pos n) (bare cmd) k = (k, zero_flags)

keep_effect :
    (fd : ℤ) (a : FlagBits) (k : Flags)
    → ¬ ((keep fd (setfl a) k).1 ≡ minus_one)
    → (keep fd getfl (keep fd (setfl a) k).0).1.nonblock ≡ a.nonblock
unfolding keep
keep_effect (negsuc n) a k h = absurd (h refl)
keep_effect (pos n) a k h = ground (arith, ==_self n)

abbrev keeping : System
keeping = record {
  Kernel = Flags;
  fcntl_f = keep;
  ioctl_f = λ d call k. (k, zero_flags);
  setsockopt_f = λ fd o k. (k, pos 0);
  getsockopt_f = λ fd o k. (k, pos 0);
  failed = minus_one;
  setfl_effect = keep_effect;
}

abbrev socket_ctx : FdCtx
socket_ctx = record {
  is_init = true;
  is_socket = true;
  sys_nonblock = true;
  user_nonblock = false;
  is_closed = false;
  fd = 1;
  recv_timeout = 0;
  send_timeout = 0;
}

abbrev one_socket : World keeping
one_socket = record {
  fds = record { store = λ p. socket_ctx; datas = none ∷ some 6 ∷ [] };
  kernel = λ j. record { nonblock = true; others = 2 };
}

abbrev regular_file : FdInfo
regular_file = record { stat = some false; nonblock = false }

accepted : ¬ (
    (keep (pos 1) (setfl (record { nonblock = true; others = 2 })) one_socket.kernel).1 ≡ minus_one)
unfolding keep
accepted e = let d : false ≡ true = ap (λ (c : FlagBits). c.nonblock) e in cc

-- A blocking fcntl: the user sees a blocking socket, the system keeps O_NONBLOCK.
getfl-setfl_example :
    (w' : World keeping) × (r : FlagBits) × (w'' : World keeping) × (g : FlagBits) × (fcntl keeping
        regular_file 9 one_socket
        (pos 1)
        (setfl (record { nonblock = false; others = 2 }))
      ≡ ok (w', r))
    × (fcntl keeping regular_file 9 w' (pos 1) getfl ≡ ok (w'', g))
    × (g.nonblock ≡ false)
    × (g.others ≡ (system_flags keeping regular_file 9 1 w'.kernel).others)
    × ((system_flags keeping regular_file 9 1 w'.kernel).nonblock ≡ true)
getfl-setfl_example =
    getfl-setfl keeping regular_file 9 one_socket 1 6 (record { nonblock = false; others = 2 }) refl
      (refl, refl) accepted

abbrev no_naps : TimerManager
no_naps = record {
  store = λ p. record { period = 0; next = 0; func = 0; recurring = false };
  timers = [];
}

-- Fifty days and a short nanosleep.
nap_example :
    ((asked (nanosleep 1 5000000) < 2147483648)
      → ((nap no_naps 3 1000 7 (nanosleep 1 5000000)).0.store 3).next
        ≡ 1000 + asked (nanosleep 1 5000000))
    × (((nap no_naps 3 1000 7 (sleep 4320000)).0.store 3).next ≡ 1000 + u32 (4320000 * 1000))
    × ((4294967296 ≤ 4320000 * 1000)
        → ((nap no_naps 3 1000 7 (sleep 4320000)).0.store 3).next < 1000 + 4320000 * 1000)
nap_example = nap_lem no_naps 3 1000 7 (nanosleep 1 5000000) 4320000 (omega arith) (omega arith)
