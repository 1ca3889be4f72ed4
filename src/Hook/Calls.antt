-- ===== src/Hook/Calls.antt =====
-- src/hook.cpp: the hooked reads and writes, accept, socket, connect and close, over do_io.
-- What a system call returns is an argument or an answer of the oracle of Hook/Io.
pub mod Results
mod Tests
use eva.Base.{
  ℕ, ◌+◌, Bool, true, false, not, ◌||◌, Option, none, some, ◌==◌, if◌then◌else◌, ℤ, pos, negsuc,
  minus_one, ◌==ℤ◌, Outcome, ok, abort, undefined, ◌>>=◌,
}
use eva.FdManager.{FdCtx, FdInfo, FdManager, get, del, TimeoutType, so_rcvtimeo, other_type}
use eva.IoManager.{Event, read, write, Mask, Epoll, Caller, IoManager}
use eva.IoManager.Manager.{cancel_all}
use eva.Hook.Io.{Answer, returned, failed, Turn, IoWorld, ebadf, call_fun, wait, do_io}

-- The calls that are do_io with an event and a timeout.
pub data IoCall : Type 0 where
  read_call readv_call recv_call recvfrom_call recvmsg_call : IoCall
  write_call writev_call send_call sendto_call sendmsg_call : IoCall

unfoldable pub waits_for : IoCall → Event
waits_for write_call = write
waits_for writev_call = write
waits_for send_call = write
waits_for sendto_call = write
waits_for sendmsg_call = write
waits_for _ = read

-- SO_SNDTIMEO is the other option.
unfoldable pub times_out_by : IoCall → TimeoutType
times_out_by write_call = other_type
times_out_by writev_call = other_type
times_out_by send_call = other_type
times_out_by sendto_call = other_type
times_out_by sendmsg_call = other_type
times_out_by _ = so_rcvtimeo

abbrev pub einprogress : ℕ
einprogress = 115

-- socket, where socket_f returns r.
unfoldable pub open_socket : FdInfo → ℕ → Bool → FdManager → ℤ → Outcome (FdManager × ℤ)
unfolding get
open_socket info fresh false m r = ok (m, r)
open_socket info fresh true m r =
    if r ==ℤ minus_one then ok (m, r) else (get info m r true fresh >>= (λ g. ok (g.0, r)))

-- The end of connect_with_timeout: what getsockopt says of SO_ERROR.
unfoldable pub so_error : Answer → Answer
so_error (failed e) = failed e
so_error (returned e) = if e == 0 then returned 0 else failed e

module _ (ep : Epoll) (garbage : ℕ → Mask) (who : Caller) (answer : ℕ → Answer) (turn : ℕ → Turn)
    (info : FdInfo) (fresh : ℕ) where
  unfoldable pub io_call :
      IoCall → Bool → ℕ → ℤ → IoWorld ep → Option (Outcome (IoWorld ep × Answer))
  unfolding do_io waits_for times_out_by
  io_call c hooked fuel fd w =
      do_io ep garbage who answer turn fd (waits_for c) info fresh hooked fuel (times_out_by c) w

  -- accept, behind its do_io.
  unfoldable pub take_fd : Outcome (IoWorld ep × Answer) → Outcome (IoWorld ep × Answer)
  unfolding get
  take_fd abort = abort
  take_fd undefined = undefined
  take_fd (ok (w, failed e)) = ok (w, failed e)
  take_fd (ok (w, returned n)) =
      get info w.fds (pos n) true fresh >>= (λ g. ok (record w { fds = g.0 }, returned n))

  abbrev over_take_fd :
      Option (Outcome (IoWorld ep × Answer)) → Option (Outcome (IoWorld ep × Answer))
  over_take_fd none = none
  over_take_fd (some o) = some (take_fd o)

  unfoldable pub accept_call : Bool → ℕ → ℤ → IoWorld ep → Option (Outcome (IoWorld ep × Answer))
  unfolding do_io take_fd
  accept_call hooked fuel fd w =
      over_take_fd (do_io ep garbage who answer turn fd read info fresh hooked fuel so_rcvtimeo w)

  -- Behind EINPROGRESS. addEvent never returns false, so the branch in which the code goes on to
  -- getsockopt without having waited is not taken.
  unfoldable pub connect_wait :
      Answer → Outcome (IoWorld ep × Option ℕ) → Outcome (IoWorld ep × Answer)
  unfolding so_error
  connect_wait opt abort = abort
  connect_wait opt undefined = undefined
  connect_wait opt (ok (w, some e)) = ok (w, failed e)
  connect_wait opt (ok (w, none)) = ok (w, so_error opt)

  abbrev pub connect_once : ℤ → IoWorld ep → IoWorld ep × Answer
  connect_once fd w = call_fun ep garbage who answer turn fd write w

  unfoldable pub connect_answer :
      Answer → ℕ → ℤ → IoWorld ep × Answer → Outcome (IoWorld ep × Answer)
  unfolding connect_wait wait
  connect_answer opt to fd (w, returned n) = ok (w, returned n)
  connect_answer opt to fd (w, failed e) =
      if e == einprogress
      then connect_wait opt (wait ep garbage who answer turn fd write to w)
      else ok (w, failed e)

  unfoldable pub connect_ctx :
      Answer → ℕ → ℤ → IoWorld ep → Option ℕ → Outcome (IoWorld ep × Answer)
  unfolding connect_answer
  connect_ctx opt to fd w none = ok (w, failed ebadf)
  connect_ctx opt to fd w (some p) =
      let ctx : FdCtx = w.fds.store p in
      if ctx.is_closed
      then ok (w, failed ebadf)
      else if not ctx.is_socket || ctx.user_nonblock
      then ok (connect_once fd w)
      else connect_answer opt to fd (connect_once fd w)

  -- connect_with_timeout; `opt` is the answer of getsockopt.
  unfoldable pub connect_with_timeout :
      Answer → ℕ → Bool → ℤ → IoWorld ep → Outcome (IoWorld ep × Answer)
  unfolding connect_ctx get
  connect_with_timeout opt to false fd w = ok (connect_once fd w)
  connect_with_timeout opt to true fd w =
      get info w.fds fd false fresh >>= (λ g. connect_ctx opt to fd (record w { fds = g.0 }) g.1)

  -- connect, with s_connect_timeout.
  unfoldable pub connect : Answer → Bool → ℤ → IoWorld ep → Outcome (IoWorld ep × Answer)
  unfolding connect_with_timeout
  connect opt = connect_with_timeout opt 5000

  -- close up to its call of close_f; `managed` tells whether IOManager::GetThis is not null.
  unfoldable pub forget : Bool → ℤ → IoWorld ep → Option ℕ → Outcome (IoWorld ep)
  unfolding del cancel_all
  forget managed fd w none = ok w
  forget managed fd w (some p) =
      (if managed then cancel_all ep garbage w.iom fd else ok (w.iom, false))
      >>= (λ r. del w.fds fd >>= (λ m. ok (record w { fds = m; iom = r.0 })))

  unfoldable pub close_fd : Bool → Bool → ℤ → IoWorld ep → Outcome (IoWorld ep)
  unfolding forget get
  close_fd managed false fd w = ok w
  close_fd managed true fd w =
      get info w.fds fd false fresh >>= (λ g. forget managed fd (record w { fds = g.0 }) g.1)
