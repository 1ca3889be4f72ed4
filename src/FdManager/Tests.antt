-- ===== src/FdManager/Tests.antt =====
-- The manager of src/fd_manager.cpp on concrete inputs.
use eva.Base.{◌≡◌, refl, ◌≤◌, true, false, some, length, arith}
use eva.FdManager.{FdCtx, FdInfo, FdManager, new_manager, new_fd_ctx}

-- A blocking socket.
abbrev blocking_socket : FdInfo
blocking_socket = record { stat = some true; nonblock = false }

abbrev no_object : FdCtx
no_object = record {
  is_init = false;
  is_socket = false;
  sys_nonblock = false;
  user_nonblock = false;
  is_closed = false;
  fd = 0;
  recv_timeout = 0;
  send_timeout = 0;
}

abbrev fresh_manager : FdManager
unfolding new_manager
fresh_manager = new_manager (λ _. no_object)

fresh_manager_long : 64 ≤ length fresh_manager.datas
unfolding new_manager
fresh_manager_long = omega arith

-- FdCtx(5) makes a blocking socket non-blocking.
init_blocking : (new_fd_ctx blocking_socket 5).1 ≡ true
unfolding new_fd_ctx
init_blocking = refl
