-- ===== src/Hook/Calls/Results.antt =====
-- close and connect of src/hook.cpp.
use eva.Base.{
  ℕ, ◌+◌, ◌<◌, ◌≡◌, refl, ap, ◌∙◌, Bool, true, false, Option, none, some, ◌==◌, if◌then◌else◌, pos,
  get_elem?, ok, arith, Bool-cases, inl, inr, leb, length,
}
use eva.FdManager.{FdInfo}
use eva.FdManager.Lookup.{find, get_no_create, del_lem}
use eva.IoManager.{write, is_set, FdContext, Mask, Epoll, Caller, IoManager, Slot, cancel_all_slot}
use eva.IoManager.Manager.{cancel_all, focus}
use eva.IoManager.Manager.Results.{at_slot-ok}
use eva.IoManager.Manager.Vectors.{get_elem?-set}
use eva.Hook.Io.{Answer, failed, returned, Turn, IoWorld, wait, etimedout}
use eva.Hook.Io.Answers.{IsBlocking}
use eva.Hook.Io.Waits.{expired, wait-Waited}
use eva.Hook.Calls.{close_fd, connect_with_timeout, so_error, einprogress}

-- cancelAll that returns true leaves no event in the context.
cancel_all_slot-events :
    (ep : Epoll) (s t : Slot ep) (fd : ℕ)
    → cancel_all_slot ep s fd ≡ ok (t, true)
    → is_set t.ctx.events ≡ false
unfolding cancel_all_slot
cancel_all_slot-events ep s t fd h = ground arith

cancel_all-events :
    (ep : Epoll) (garbage : ℕ → Mask) (m m' : IoManager ep) (n : ℕ) (c : FdContext)
    → cancel_all ep garbage m (pos n) ≡ ok (m', true)
    → get_elem? m'.contexts n ≡ some c
    → is_set c.events ≡ false
unfolding cancel_all
cancel_all-events ep garbage m m' n c h g = elim (Bool-cases (leb (length m.contexts) n)) [
  | inl e ↦ let h' = rw e at h in absurd (cc)
  | inr e ↦
      let (d, t, found, r, eq) =
        at_slot-ok ep garbage m m' n true (λ s. cancel_all_slot ep s n) (rw e at h) in
      let same : c ≡ t.ctx = ground (arith, get_elem?-set m.contexts n n d t.ctx found) in
      rw same (cancel_all_slot-events ep (focus ep garbage m d) t n r)
]

-- close of a descriptor that the manager has, on a thread of an IOManager whose cancelAll returns:
-- it comes to its close_f with the descriptor forgotten and all others kept, and with what cancelAll
-- leaves, where no event is left for the descriptor if cancelAll returned true.
pub close_lem :
    (ep : Epoll) (garbage : ℕ → Mask) (who : Caller) (answer : ℕ → Answer) (turn : ℕ → Turn)
    (info : FdInfo) (fresh : ℕ) (w : IoWorld ep) (n p : ℕ) (m : IoManager ep) (b : Bool)
    → find w.fds n ≡ some p
    → cancel_all ep garbage w.iom (pos n) ≡ ok (m, b)
    → (w' : IoWorld ep) × (close_fd ep garbage who answer turn info fresh true true (pos n) w
        ≡ ok w')
      × ((j : ℕ) → find w'.fds j ≡ (if n == j then none else find w.fds j))
      × (w'.iom ≡ m)
      × ((b ≡ true) → (c : FdContext) → get_elem? m.contexts n ≡ some c → is_set c.events ≡ false)
unfolding close_fd
close_lem ep garbage who answer turn info fresh w n p m b f h =
    let (fds, d, l, _, _) = del_lem w.fds n in
    (
      record w { fds = fds; iom = m },
      rw (get_no_create info w.fds n fresh).0 (rw f (rw h (rw d))),
      l,
      refl,
      (λ e c. cancel_all-events ep garbage w.iom m n c (h ∙ ap (λ v. ok (m, v)) e)),
    )

-- The answer of connect_with_timeout behind its wait.
abbrev waited_answer : Bool → Answer → Answer
waited_answer true opt = failed etimedout
waited_answer false opt = so_error opt

connect_waited :
    (ep : Epoll) (garbage : ℕ → Mask) (who : Caller) (answer : ℕ → Answer) (turn : ℕ → Turn)
    (info : FdInfo) (fresh : ℕ) (w w1 : IoWorld ep) (o : Option ℕ) (n p to : ℕ) (opt : Answer)
    → find w.fds n ≡ some p
    → IsBlocking (w.fds.store p)
    → answer w.calls ≡ failed einprogress
    → wait ep garbage who answer turn (pos n) write to (record w { calls = w.calls + 1 })
      ≡ ok (w1, o)
    → connect_with_timeout ep garbage who answer turn info fresh opt to true (pos n) w
      ≡ ok (w1, waited_answer (expired ep garbage who answer turn n write to w) opt)
unfolding connect_with_timeout
connect_waited ep garbage who answer turn info fresh w w1 o n p to opt f b a h =
    rw (get_no_create info w.fds n fresh).0 (
      rw f (
        rw b.0 (
          rw b.1 (
            rw b.2 (
              rw a (
                rw h (
                  rw
                    (wait-Waited ep garbage who answer turn n write to
                      (record w { calls = w.calls + 1 }) w1 o h).outcome
                    (elim (Bool-cases (expired ep garbage who answer turn n write to w)) [
                      | inl y ↦ rw y
                      | inr late ↦ rw late
                    ]))))))))

-- connect_with_timeout of an open, blocking socket whose connection is in progress, where the wait
-- for it returns, leaves what the wait leaves and returns -1 with ETIMEDOUT where the timer expired;
-- where it did not, 0 if SO_ERROR is 0, -1 with errno set to SO_ERROR if that is another number, and
-- -1 with the errno of getsockopt where getsockopt fails.
pub connect_lem :
    (ep : Epoll) (garbage : ℕ → Mask) (who : Caller) (answer : ℕ → Answer) (turn : ℕ → Turn)
    (info : FdInfo) (fresh : ℕ) (w w1 : IoWorld ep) (o : Option ℕ) (n p to : ℕ) (opt : Answer)
    → find w.fds n ≡ some p
    → IsBlocking (w.fds.store p)
    → answer w.calls ≡ failed einprogress
    → wait ep garbage who answer turn (pos n) write to (record w { calls = w.calls + 1 })
      ≡ ok (w1, o)
    → (r : Answer) × (connect_with_timeout ep garbage who answer turn info fresh opt to true
          (pos n)
          w
        ≡ ok (w1, r))
      × (expired ep garbage who answer turn n write to w ≡ true → r ≡ failed etimedout)
      × (expired ep garbage who answer turn n write to w ≡ false
          → (opt ≡ returned 0 → r ≡ returned 0)
            × ((e : ℕ) → 0 < e → opt ≡ returned e → r ≡ failed e)
            × ((e : ℕ) → opt ≡ failed e → r ≡ failed e))
unfolding so_error
connect_lem ep garbage who answer turn info fresh w w1 o n p to opt f b a h = (
  waited_answer (expired ep garbage who answer turn n write to w) opt,
  connect_waited ep garbage who answer turn info fresh w w1 o n p to opt f b a h,
  (λ y. rw y),
  (λ late.
      ((λ x. rw late (rw x)), (λ e q x. rw late (rw x (ground arith))), (λ e x. rw late (rw x)))),
)
