-- ===== src/Log/Appenders/Reopen.antt =====
-- FileLogAppender::reopen of src/log.cpp.
use eva.Base.{◌≡◌, Bool, true, not, ◌&&◌, Bytes, arith}
use eva.Log.Appenders.{FileStream, reopen}

-- reopen returns true, and leaves an open stream without its failbit, exactly where the file can be
-- opened and the stream was not both open and failed: a stream that a write has failed on stays open
-- and is never opened again. The name stays, and the result is the negated failbit.
pub reopen_lem :
    (can_open : Bytes → Bool) (f : FileStream)
    → ((reopen can_open f).1 ≡ (can_open f.name && not (f.is_open && f.failed)))
      × ((reopen can_open f).1 ≡ not (reopen can_open f).0.failed)
      × (((reopen can_open f).1 ≡ true) → (reopen can_open f).0.is_open ≡ true)
      × ((reopen can_open f).0.name ≡ f.name)
unfolding reopen
reopen_lem can_open f = (ground arith, ground arith, (λ h. ground arith), ground arith)
