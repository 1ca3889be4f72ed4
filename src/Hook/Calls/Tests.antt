-- ===== src/Hook/Calls/Tests.antt =====
-- connect and close of src/hook.cpp on concrete inputs.
use eva.Base.{
  ℕ, ◌+◌, ◌<◌, ◌≡◌, refl, true, false, none, some, ◌==◌, if◌then◌else◌, pos, get_elem?, ok,
}
use eva.FdManager.Lookup.{find}
use eva.IoManager.{write, is_set, FdContext}
use eva.IoManager.Manager.{cancel_all}
use eva.Hook.Io.{Answer, returned, failed, IoWorld, wait, etimedout}
use eva.Hook.Io.Samples.{
  take_all, epoll, clean, caller, start_world, quiet, file_info, never, value_or,
}
use eva.Hook.Io.Waits.{expired}
use eva.Hook.Calls.{close_fd, connect_with_timeout}
use eva.Hook.Calls.Results.{close_lem, connect_lem}

nothing_cancelled : cancel_all epoll clean start_world.iom (pos 1) ≡ ok (start_world.iom, false)
unfolding cancel_all
nothing_cancelled = refl

close_example :
    (w' : IoWorld epoll) × (close_fd epoll clean caller never quiet file_info 3 true true
        (pos 1)
        start_world
      ≡ ok w')
    × ((j : ℕ) → find w'.fds j ≡ (if 1 == j then none else find start_world.fds j))
    × (w'.iom ≡ start_world.iom)
    × ((false ≡ true)
        → (c : FdContext) → get_elem? start_world.iom.contexts 1 ≡ some c
        → is_set c.events ≡ false)
close_example =
    close_lem epoll clean caller never quiet file_info 3 start_world 1 6 start_world.iom false refl
      nothing_cancelled

-- The connection is in progress.
abbrev in_progress : ℕ → Answer
in_progress k = failed 115

connected : IoWorld epoll
unfolding wait take_all
connected =
    (value_or
      (wait epoll clean caller in_progress quiet (pos 1) write 5000
        (record start_world { calls = 1 }))
      (start_world, none)).0

connected_lem :
    wait epoll clean caller in_progress quiet
      (pos 1)
      write
      5000
      (record start_world { calls = 0 + 1 })
    ≡ ok (connected, none)
unfolding connected
connected_lem = refl

connect_example :
    (r : Answer) × (connect_with_timeout epoll clean caller in_progress quiet file_info 3
        (returned 111)
        5000
        true
        (pos 1)
        start_world
      ≡ ok (connected, r))
    × (expired epoll clean caller in_progress quiet 1 write 5000 start_world ≡ true
        → r ≡ failed etimedout)
    × (expired epoll clean caller in_progress quiet 1 write 5000 start_world ≡ false
        → (returned 111 ≡ returned 0 → r ≡ returned 0)
          × ((e : ℕ) → 0 < e → returned 111 ≡ returned e → r ≡ failed e)
          × ((e : ℕ) → returned 111 ≡ failed e → r ≡ failed e))
connect_example =
    connect_lem epoll clean caller in_progress quiet file_info 3 start_world connected none 1 6 5000
      (returned 111) refl (refl, refl, refl) refl connected_lem
