-- ===== src/Hook/Originals.antt =====
-- src/hook.h and src/hook.cpp: the pointers to the original functions, and the flag of each thread.
use eva.Base.{ℕ, ◌≡◌, refl, Bool, false, List, [], ◌∷◌, Option, none, ◌==◌, if◌then◌else◌, update}

-- The functions of HOOK_FUN, each with its `_func` type and its pointer.
pub data HookFun : Type 0 where
  sleep usleep nanosleep socket connect accept : HookFun
  read readv recv recvfrom recvmsg : HookFun
  write writev send sendto sendmsg : HookFun
  close fcntl ioctl getsockopt setsockopt : HookFun

-- XX over HOOK_FUN, in its order.
abbrev pub hook_fun : List HookFun
hook_fun =
    sleep ∷ usleep ∷ nanosleep ∷ socket ∷ connect ∷ accept ∷ read ∷ readv ∷ recv ∷ recvfrom
    ∷ recvmsg ∷ write ∷ writev ∷ send ∷ sendto ∷ sendmsg ∷ close ∷ fcntl ∷ ioctl ∷ getsockopt
    ∷ setsockopt ∷ []

abbrev number : HookFun → ℕ
number sleep = 0
number usleep = 1
number nanosleep = 2
number socket = 3
number connect = 4
number accept = 5
number read = 6
number readv = 7
number recv = 8
number recvfrom = 9
number recvmsg = 10
number write = 11
number writev = 12
number send = 13
number sendto = 14
number sendmsg = 15
number close = 16
number fcntl = 17
number ioctl = 18
number getsockopt = 19
number setsockopt = 20

-- The pointers, none for null; hook_init's `static bool is_inited`; and t_hooked of each thread.
pub record Originals : Type 0 where
  pub pointer : HookFun → Option ℕ
  pub is_inited : Bool
  pub t_hooked : ℕ → Bool

-- Before the program's constructors have run.
abbrev pub zeroed : Originals
zeroed = record { pointer = λ f. none; is_inited = false; t_hooked = λ t. false }

-- name##_f = (name##_func)dlsym(RTLD_NEXT, #name) for each name of a list.
unfoldable pub fetch_all : (HookFun → Option ℕ) → List HookFun → Originals → Originals
fetch_all dlsym [] o = o
fetch_all dlsym (f ∷ fs) o =
    fetch_all dlsym fs
      (record o { pointer = λ g. if number f == number g then dlsym f else o.pointer g })

unfoldable pub hook_init : (HookFun → Option ℕ) → Originals → Originals
unfolding fetch_all
hook_init dlsym o = if o.is_inited then o else fetch_all dlsym hook_fun o

unfoldable pub is_hooked : Originals → ℕ → Bool
is_hooked o t = o.t_hooked t

unfoldable pub set_hook : Originals → ℕ → Bool → Originals
set_hook o t flag = record o { t_hooked = update o.t_hooked t flag }

-- hook_init at the start of the program, by s_hook_initer, gives every pointer the function that dlsym
-- finds, and none else; hooking a thread changes no other thread and no pointer. is_inited is never
-- set, so that a second hook_init looks all functions up again.
pub hook_init_lem :
    (dlsym again : HookFun → Option ℕ) (f : HookFun) (t u : ℕ) (flag : Bool)
    → let o = set_hook (hook_init dlsym zeroed) t flag in
      (o.pointer f ≡ dlsym f)
      × (is_hooked o u ≡ (if t == u then flag else false))
      × ((hook_init again o).pointer f ≡ again f)
unfolding hook_init is_hooked set_hook
hook_init_lem dlsym again sleep t u flag = (refl, refl, refl)
hook_init_lem dlsym again usleep t u flag = (refl, refl, refl)
hook_init_lem dlsym again nanosleep t u flag = (refl, refl, refl)
hook_init_lem dlsym again socket t u flag = (refl, refl, refl)
hook_init_lem dlsym again connect t u flag = (refl, refl, refl)
hook_init_lem dlsym again accept t u flag = (refl, refl, refl)
hook_init_lem dlsym again read t u flag = (refl, refl, refl)
hook_init_lem dlsym again readv t u flag = (refl, refl, refl)
hook_init_lem dlsym again recv t u flag = (refl, refl, refl)
hook_init_lem dlsym again recvfrom t u flag = (refl, refl, refl)
hook_init_lem dlsym again recvmsg t u flag = (refl, refl, refl)
hook_init_lem dlsym again write t u flag = (refl, refl, refl)
hook_init_lem dlsym again writev t u flag = (refl, refl, refl)
hook_init_lem dlsym again send t u flag = (refl, refl, refl)
hook_init_lem dlsym again sendto t u flag = (refl, refl, refl)
hook_init_lem dlsym again sendmsg t u flag = (refl, refl, refl)
hook_init_lem dlsym again close t u flag = (refl, refl, refl)
hook_init_lem dlsym again fcntl t u flag = (refl, refl, refl)
hook_init_lem dlsym again ioctl t u flag = (refl, refl, refl)
hook_init_lem dlsym again getsockopt t u flag = (refl, refl, refl)
hook_init_lem dlsym again setsockopt t u flag = (refl, refl, refl)
