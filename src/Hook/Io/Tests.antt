-- ===== src/Hook/Io/Tests.antt =====
-- do_io of src/hook.cpp on concrete inputs: a read that is interrupted, and one that waits twice.
use eva.Base.{ℕ, ◌+◌, ◌≡◌, refl, true, none, some, ◌==◌, if◌then◌else◌, pos, ok, abort, arith}
use eva.FdManager.{so_rcvtimeo, get_timeout}
use eva.IoManager.{read}
use eva.Hook.Io.{Answer, returned, failed, IoWorld, is_error, eagain, etimedout, wait, do_io}
use eva.Hook.Io.Answers.{Attempt, do_io_answered}
use eva.Hook.Io.Waits.{expired, do_io_waited}
use eva.Hook.Io.Samples.{
  take_all, epoll, clean, caller, socket, start_world, quiet, file_info, never, value_or,
}

-- One interrupted call, then five bytes.
abbrev five_bytes : ℕ → Answer
five_bytes k = if k == 0 then failed 4 else returned 5

five_bytes-Attempt : Attempt five_bytes 0 1 (returned 5)
five_bytes-Attempt = record {
  interrupted = λ i h. let e : i ≡ 0 = omega arith in rw e refl;
  last = refl;
  over = refl;
}

do_io_answered_example :
    do_io epoll clean caller five_bytes quiet
      (pos 1)
      read
      file_info
      3
      true
      10
      so_rcvtimeo
      start_world
    ≡ some (ok (record start_world { calls = 0 + 1 + 1 }, returned 5))
do_io_answered_example =
    do_io_answered epoll clean caller five_bytes quiet 1 read file_info 3 start_world 6 1 10
      so_rcvtimeo (returned 5) refl (refl, refl, refl) five_bytes-Attempt refl (omega arith)

waited : IoWorld epoll
unfolding wait take_all
waited =
    (value_or
      (wait epoll clean caller never quiet (pos 1) read 100 (record start_world { calls = 1 }))
      (start_world, none)).0

waited_lem :
    wait epoll clean caller never quiet
      (pos 1)
      read
      (get_timeout socket so_rcvtimeo)
      (record start_world { calls = 0 + 0 + 1 })
    ≡ ok (waited, none)
unfolding waited get_timeout
waited_lem = refl

-- The second attempt, which is not interrupted.
never-Attempt : (k : ℕ) → Attempt never k 0 (failed 11)
never-Attempt k = record { interrupted = λ i h. absurd (omega arith); last = refl; over = refl }

do_io_waited_example :
    do_io epoll clean caller never quiet (pos 1) read file_info 3 true 10 so_rcvtimeo start_world
    ≡ (if expired epoll clean caller never quiet 1 read (get_timeout socket so_rcvtimeo) start_world
        then some (ok (waited, failed etimedout))
        else if is_error eagain (failed 11)
        then some abort
        else some (ok (record waited { calls = waited.calls + 0 + 1 }, failed 11)))
do_io_waited_example =
    do_io_waited epoll clean caller never quiet 1 read file_info 3 start_world waited none 6 0 0 10
      so_rcvtimeo (failed 11) (failed 11) refl (refl, refl, refl) (never-Attempt 0) refl waited_lem
      (never-Attempt waited.calls) (omega arith) (omega arith)

-- The second wait of a read ends the process.
waits_twice :
    do_io epoll clean caller never quiet (pos 1) read file_info 3 true 10 so_rcvtimeo start_world
    ≡ some abort
unfolding do_io take_all get_timeout
waits_twice = refl
