-- ===== src/FdManager/Gets/Tests.antt =====
-- Two threads that get the descriptor 70 from a new manager.
use eva.Base.{ℕ, ◌≡◌, refl, true, false, some, arith}
use eva.FdManager.{FdCtx, FdInfo}
use eva.FdManager.Lookup.{find, find-new_manager}
use eva.FdManager.Gets.{holding, Gets, IsUnused, Steps}
use eva.FdManager.Gets.Held.{begun}
use eva.FdManager.Gets.Doubled.{doubled_lem}

-- A blocking socket.
abbrev blocking : FdInfo
blocking = record { stat = some true; nonblock = false }

abbrev memory : ℕ → FdCtx
memory p = record {
  is_init = false;
  is_socket = false;
  sys_nonblock = false;
  user_nonblock = false;
  is_closed = false;
  fd = 0;
  recv_timeout = 0;
  send_timeout = 0;
}

begun-IsUnused : (p : ℕ) → IsUnused (begun memory) p
begun-IsUnused p = record {
  not_managed = λ n e. ground (arith, find-new_manager memory n);
  not_held = λ i n e. cc;
}

doubled_lem_example :
    (t : Gets) × Steps blocking (begun memory) t
    × (t.at 0 ≡ holding 70 8)
    × (t.at 1 ≡ holding 70 9)
    × (find t.manager 70 ≡ some 9)
doubled_lem_example =
    doubled_lem blocking (begun memory) 0 1 70 8 9 refl refl refl refl
      (omega (arith, (find-new_manager memory 0).0)) (find-new_manager memory 70).1
      (begun-IsUnused 8) (begun-IsUnused 9)
