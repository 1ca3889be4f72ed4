-- ===== src/Hook/Io/Answers.antt =====
-- do_io of src/hook.cpp up to its first wait: the calls that are passed on, and the loop on EINTR.
use eva.Base.{ℕ, zero, suc, ◌+◌, ◌<◌, ◌≡◌, ap, subst, ◌∙◌, true, false, some, ℤ, pos, ok, arith}
use eva.FdManager.{FdCtx, FdInfo, get_timeout, TimeoutType}
use eva.FdManager.Lookup.{find, get_no_create}
use eva.IoManager.{Event, Mask, Epoll, Caller}
use eva.Hook.Io.{
  Answer, Turn, IoWorld, is_error, eintr, eagain, call_again, retry, after_call, do_io,
}

-- The calls from the k-th on: m of them are interrupted, and the next gives r.
pub record Attempt (answer : ℕ → Answer) (k m : ℕ) (r : Answer) : Type 0 where
  pub interrupted : (i : ℕ) → i < m → is_error eintr (answer (k + i)) ≡ true
  pub last : answer (k + m) ≡ r
  pub over : is_error eintr r ≡ false

-- Behind the first interrupted call.
Attempt-suc :
    (answer : ℕ → Answer) (k m : ℕ) (r : Answer)
    → Attempt answer k (suc m) r
    → Attempt answer (k + 1) m r
Attempt-suc answer k m r a = record {
  interrupted = λ i h.
      let e : (k + 1) + i ≡ k + suc i = omega arith in rw e (a.interrupted (suc i) (omega arith));
  last = let e : (k + 1) + m ≡ k + suc m = omega arith in rw e a.last;
  over = a.over;
}

-- The first call of all.
Attempt-first :
    (answer : ℕ → Answer) (k m : ℕ) (r : Answer)
    → Attempt answer k (suc m) r
    → is_error eintr (answer k) ≡ true
Attempt-first answer k m r a =
    subst (λ j. is_error eintr (answer j) ≡ true) (let e : k + 0 ≡ k = omega arith in e)
      (a.interrupted 0 (omega arith))

Attempt-zero : (answer : ℕ → Answer) (k : ℕ) (r : Answer) → Attempt answer k 0 r → answer k ≡ r
Attempt-zero answer k r a = subst (λ j. answer j ≡ r) (let e : k + 0 ≡ k = omega arith in e) a.last

module _ (ep : Epoll) (garbage : ℕ → Mask) (who : Caller) (answer : ℕ → Answer) (turn : ℕ → Turn)
    (fd : ℤ) (event : Event) where
  -- The state after m + 1 calls.
  abbrev pub called : IoWorld ep → ℕ → IoWorld ep
  called w m = record w { calls = w.calls + m + 1 }

  pub call_again-Attempt :
      (fuel m : ℕ) (w : IoWorld ep) (r : Answer)
      → Attempt answer w.calls m r
      → m < fuel
      → call_again ep garbage who answer turn fd event fuel w ≡ some (called w m, r)
  unfolding call_again
  call_again-Attempt zero m w r a h = absurd (omega arith)
  call_again-Attempt (suc fuel) zero w r a h = rw (Attempt-zero answer w.calls r a) (
      rw a.over (
        ap (λ c. some (record w { calls = c }, r))
          (let e : w.calls + 1 ≡ w.calls + 0 + 1 = omega arith in e)))
  call_again-Attempt (suc fuel) (suc m) w r a h = rw (Attempt-first answer w.calls m r a) (
      call_again-Attempt fuel m (record w { calls = w.calls + 1 }) r
        (Attempt-suc answer w.calls m r a) (omega arith)
      ∙ ap (λ c. some (record w { calls = c }, r))
          (let e : w.calls + 1 + m + 1 ≡ w.calls + suc m + 1 = omega arith in e))

  -- From the label retry on, behind an attempt.
  pub retry-Attempt :
      (fuel m to : ℕ) (w : IoWorld ep) (r : Answer)
      → Attempt answer w.calls m r
      → m < fuel
      → retry ep garbage who answer turn fd event (suc fuel) to w
        ≡ after_call ep garbage who answer turn fd event
            (retry ep garbage who answer turn fd event fuel to)
            to
            (some (called w m, r))
  unfolding retry
  retry-Attempt fuel m to w r a h =
      ap
        (after_call ep garbage who answer turn fd event
          (retry ep garbage who answer turn fd event fuel to) to)
        (call_again-Attempt fuel m w r a h)

-- The object of a socket that is open and that the user wants to block.
abbrev pub IsBlocking : FdCtx → Type 0
IsBlocking c = (c.is_closed ≡ false) × (c.is_socket ≡ true) × (c.user_nonblock ≡ false)

module _ (ep : Epoll) (garbage : ℕ → Mask) (who : Caller) (answer : ℕ → Answer) (turn : ℕ → Turn)
    (n : ℕ) (event : Event) (info : FdInfo) (fresh : ℕ) where
  pub do_io-retry :
      (w : IoWorld ep) (p fuel : ℕ) (so : TimeoutType)
      → find w.fds n ≡ some p
      → IsBlocking (w.fds.store p)
      → do_io ep garbage who answer turn (pos n) event info fresh true fuel so w
        ≡ retry ep garbage who answer turn (pos n) event fuel (get_timeout (w.fds.store p) so) w
  unfolding do_io
  do_io-retry w p fuel so f b =
      rw (get_no_create info w.fds n fresh).0 (rw f (rw b.0 (rw b.1 (rw b.2))))

  -- On a descriptor whose object is an open, blocking socket, where the system call is interrupted m
  -- times and then does not say EAGAIN: do_io returns this result after m + 1 calls, with nothing
  -- else changed, given fuel for as many rounds and one more.
  pub do_io_answered :
      (w : IoWorld ep) (p m fuel : ℕ) (so : TimeoutType) (r : Answer)
      → find w.fds n ≡ some p
      → IsBlocking (w.fds.store p)
      → Attempt answer w.calls m r
      → is_error eagain r ≡ false
      → m + 1 < fuel
      → do_io ep garbage who answer turn (pos n) event info fresh true fuel so w
        ≡ some (ok (record w { calls = w.calls + m + 1 }, r))
  unfolding after_call
  do_io_answered w p m zero so r f b a e h = absurd (omega arith)
  do_io_answered w p m (suc fuel) so r f b a e h =
      do_io-retry w p (suc fuel) so f b
      ∙ retry-Attempt ep garbage who answer turn (pos n) event fuel m
          (get_timeout (w.fds.store p) so) w r a (omega arith)
      ∙ rw e
