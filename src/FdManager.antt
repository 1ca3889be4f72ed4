-- ===== src/FdManager.antt =====
-- src/fd_manager.h and src/fd_manager.cpp: what is known of each file descriptor.
-- An FdCtx::ptr is an address in a store. fstat and fcntl are arguments; of the flags of a descriptor
-- only O_NONBLOCK matters. An index outside the vector ends the process.
pub mod Lookup
pub mod Gets
mod Tests
use eva.Base.{
  ℕ, zero, suc, ◌*◌, ◌/◌, Bool, true, false, not, List, [], ◌∷◌, Option, none, some, leb,
  if◌then◌else◌, u64_max, length, get_elem?, set, update, ℤ, pos, negsuc, Outcome, ok, abort, ◌>>=◌,
  ◌>>◌, is_some, ◌==◌,
}

pub record FdCtx : Type 0 where
  pub is_init : Bool
  pub is_socket : Bool
  pub sys_nonblock : Bool
  pub user_nonblock : Bool
  pub is_closed : Bool
  pub fd : ℕ
  pub recv_timeout : ℕ
  pub send_timeout : ℕ

-- What the system says of a descriptor: fstat fails, or tells whether it is a socket.
pub record FdInfo : Type 0 where
  pub stat : Option Bool
  pub nonblock : Bool

-- S_ISSOCK of what fstat tells.
unfoldable pub is_sock : Option Bool → Bool
is_sock none = false
is_sock (some b) = b

-- FdCtx::init: the object, whose is_init is the result, and whether it calls
-- fcntl_f(m_fd, F_SETFL, flags | O_NONBLOCK).
unfoldable pub init : FdInfo → FdCtx → FdCtx × Bool
unfolding is_sock
init info c =
    let known : Bool = is_some info.stat in
    let sock : Bool = is_sock info.stat in
    if c.is_init then (c, false) else (
      record c {
        recv_timeout = u64_max;
        send_timeout = u64_max;
        is_init = known;
        is_socket = sock;
        sys_nonblock = sock;
        user_nonblock = false;
        is_closed = false;
      },
      (if sock then not info.nonblock else false),
    )

-- FdCtx(fd).
unfoldable pub new_fd_ctx : FdInfo → ℕ → FdCtx × Bool
unfolding init
new_fd_ctx info fd = init info (record {
  is_init = false;
  is_socket = false;
  sys_nonblock = false;
  user_nonblock = false;
  is_closed = false;
  fd = fd;
  recv_timeout = u64_max;
  send_timeout = u64_max;
})

-- The option names that setTimeout and getTimeout tell apart.
pub data TimeoutType : Type 0 where
  so_rcvtimeo other_type : TimeoutType

unfoldable pub set_timeout : FdCtx → TimeoutType → ℕ → FdCtx
set_timeout c so_rcvtimeo v = record c { recv_timeout = v }
set_timeout c other_type v = record c { send_timeout = v }

unfoldable pub get_timeout : FdCtx → TimeoutType → ℕ
get_timeout c so_rcvtimeo = c.recv_timeout
get_timeout c other_type = c.send_timeout

unfoldable pub set_user_nonblock : FdCtx → Bool → FdCtx
set_user_nonblock c v = record c { user_nonblock = v }

unfoldable pub set_sys_nonblock : FdCtx → Bool → FdCtx
set_sys_nonblock c v = record c { sys_nonblock = v }

pub record FdManager : Type 0 where
  pub store : ℕ → FdCtx
  pub datas : List (Option ℕ)

-- std::vector::resize over pointers: new elements are null.
unfoldable pub resize : ℕ → List (Option ℕ) → List (Option ℕ)
resize zero ps = []
resize (suc n) [] = none ∷ resize n []
resize (suc n) (p ∷ ps) = p ∷ resize n ps

unfoldable pub new_manager : (ℕ → FdCtx) → FdManager
unfolding resize
new_manager h = record { store = h; datas = resize 64 [] }

-- `m_datas[fd] = ctx`.
unfoldable assign : FdManager → ℕ → ℕ → Outcome (FdManager × Option ℕ)
assign m n p =
    if leb (length m.datas) n
    then abort
    else ok (record m { datas = set m.datas n (some p) }, some p)

-- The part of get under the write lock; p is the address of the new object.
unfoldable pub create : FdInfo → FdManager → ℕ → ℕ → Outcome (FdManager × Option ℕ)
unfolding assign new_fd_ctx resize
create info m n p =
    let h = update m.store p (new_fd_ctx info n).0 in
    let ds = (if leb (length m.datas) n then resize (n * 3 / 2) m.datas else m.datas) in
    assign (record { store = h; datas = ds }) n p

-- The element of the vector, which the read lock covers.
unfoldable pub found :
    FdInfo → FdManager → ℕ → Bool → ℕ → Option (Option ℕ) → Outcome (FdManager × Option ℕ)
unfolding create
found info m n auto_create p none = if auto_create then create info m n p else ok (m, none)
found info m n auto_create p (some none) = if auto_create then create info m n p else ok (m, none)
found info m n auto_create p (some (some q)) = ok (m, some q)

-- get(fd, auto_create).
unfoldable pub get : FdInfo → FdManager → ℤ → Bool → ℕ → Outcome (FdManager × Option ℕ)
unfolding found
get info m (negsuc zero) auto_create p = ok (m, none)
get info m (negsuc (suc n)) auto_create p = abort
get info m (pos n) auto_create p = found info m n auto_create p (get_elem? m.datas n)

unfoldable pub del : FdManager → ℤ → Outcome FdManager
del m (negsuc n) = abort
del m (pos n) =
    if leb (length m.datas) n then ok m else ok (record m { datas = set m.datas n none })
