-- ===== src/Hook/Flags.antt =====
-- What fcntl of src/hook.cpp shows a user of O_NONBLOCK, and what the system has.
use eva.Base.{ℕ, ◌≡◌, refl, ap, Bool, true, false, some, pos, ok, update, arith, ==_self}
use eva.FdManager.{FdCtx, FdInfo, FdManager, set_user_nonblock}
use eva.FdManager.Lookup.{find, get_no_create}
use eva.Hook.{FlagBits, setfl, getfl, System, World, hooked_socket, set_flags, user_flags, fcntl}

module _ (sys : System) (info : FdInfo) (fresh : ℕ) where
  -- The flags that the system has for a descriptor.
  abbrev pub system_flags : ℕ → sys.Kernel → FlagBits
  system_flags n k = (sys.fcntl_f (pos n) getfl k).1

  -- A socket that nobody has closed.
  abbrev pub IsOpenSocket : FdManager → ℕ → Type 0
  IsOpenSocket m p = ((m.store p).is_closed ≡ false) × ((m.store p).is_socket ≡ true)

  open_hooked : (m : FdManager) (p : ℕ) → IsOpenSocket m p → hooked_socket m (some p) ≡ some p
  unfolding hooked_socket
  open_hooked m p h = rw h.0 (rw h.1)

  set_known :
      (w : World sys) (n p : ℕ) (a : FlagBits)
      → find w.fds n ≡ some p
      → hooked_socket w.fds (some p) ≡ some p
      → fcntl sys info fresh w (pos n) (setfl a)
        ≡ set_flags sys info fresh (pos n) a w.fds w.kernel (some p)
  unfolding fcntl
  set_known w n p a f h = rw (get_no_create info w.fds n fresh).0 (rw f (rw h))

  get_known :
      (w : World sys) (n p : ℕ)
      → find w.fds n ≡ some p
      → hooked_socket w.fds (some p) ≡ some p
      → fcntl sys info fresh w (pos n) getfl
        ≡ ok (
          record { fds = w.fds; kernel = (sys.fcntl_f (pos n) getfl w.kernel).0 },
          user_flags sys info fresh w.fds (system_flags n w.kernel) (some p),
        )
  unfolding fcntl
  get_known w n p f h = rw (get_no_create info w.fds n fresh).0 (rw f (rw h))

  update_at : {A : Type 0} (h : ℕ → A) (p : ℕ) (a : A) → update h p a p ≡ a
  update_at h p a = ground (arith, ==_self p)

  -- What set_flags leaves of the manager.
  abbrev told : FdManager → ℕ → Bool → FdManager
  told m p b = record m { store = update m.store p (set_user_nonblock (m.store p) b) }

  told_open : (m : FdManager) (p : ℕ) (b : Bool) → IsOpenSocket m p → IsOpenSocket (told m p b) p
  unfolding set_user_nonblock
  told_open m p b h = (
    rw (update_at m.store p (set_user_nonblock (m.store p) b)) h.0,
    rw (update_at m.store p (set_user_nonblock (m.store p) b)) h.1,
  )

  told_shown : (m : FdManager) (p : ℕ) (b : Bool) → ((told m p b).store p).user_nonblock ≡ b
  unfolding set_user_nonblock
  told_shown m p b = ap (λ (c : FdCtx). c.user_nonblock) (update_at m.store p _)

  -- For a socket that the manager has and that is not closed, if the system accepts F_SETFL: fcntl with
  -- F_SETFL returns, and then F_GETFL returns with the O_NONBLOCK that the user asked for and the
  -- system's other flags, while the system has the O_NONBLOCK of m_sysNonblock, whatever the user asked
  -- for.
  pub getfl-setfl :
      (w : World sys) (n p : ℕ) (a : FlagBits)
      → find w.fds n ≡ some p
      → IsOpenSocket w.fds p
      → ¬ (
          (sys.fcntl_f
            (pos n)
            (setfl (record a { nonblock = (w.fds.store p).sys_nonblock }))
            w.kernel).1
          ≡ sys.failed)
      → (w' : World sys) × (r : FlagBits) × (w'' : World sys) × (g : FlagBits) × (fcntl sys info
            fresh w
            (pos n)
            (setfl a)
          ≡ ok (w', r))
        × (fcntl sys info fresh w' (pos n) getfl ≡ ok (w'', g))
        × (g.nonblock ≡ a.nonblock)
        × (g.others ≡ (system_flags n w'.kernel).others)
        × ((system_flags n w'.kernel).nonblock ≡ (w.fds.store p).sys_nonblock)
  unfolding set_flags user_flags set_user_nonblock
  getfl-setfl w n p a f h done =
      let arg : FlagBits = record a { nonblock = (w.fds.store p).sys_nonblock } in
      let m : FdManager = told w.fds p a.nonblock in
      let w' : World sys = record {
        fds = m;
        kernel = (sys.fcntl_f (pos n) (setfl arg) w.kernel).0;
      } in
      (
        w',
        (sys.fcntl_f (pos n) (setfl arg) w.kernel).1,
        record { fds = m; kernel = (sys.fcntl_f (pos n) getfl w'.kernel).0 },
        record (system_flags n w'.kernel) { nonblock = (m.store p).user_nonblock },
        set_known w n p a f (open_hooked w.fds p h),
        get_known w' n p f (open_hooked m p (told_open w.fds p a.nonblock h)),
        told_shown w.fds p a.nonblock,
        refl,
        sys.setfl_effect (pos n) arg w.kernel done,
      )
