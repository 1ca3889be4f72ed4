-- ===== src/IoManager/Growth.antt =====
-- src/iomanager.cpp: how addEvent finds the context of its descriptor, as steps of several threads.
-- The check of the size is one critical section, and the resize or the read of the vector another.
-- A context is known by its address; resizeContexts leaves no null pointer in the vector.
pub mod Found
pub mod Shrinks
mod Tests
use eva.Base.{
  ℕ, zero, suc, ◌+◌, ◌-◌, ◌*◌, ◌/◌, ◌≡◌, Bool, true, false, ◌||◌, List, [], ◌∷◌, Option, none, some,
  if◌then◌else◌, ltb, leb, length, get_elem?, update,
}
use eva.IoManager.Manager.{default_fd_contexts_size}

-- m_fd_contexts, the member `fd` of each context, and a bound of the addresses in use.
pub record Table : Type 0 where
  pub contexts : List ℕ
  pub fd_of : ℕ → ℕ
  pub fresh : ℕ

-- resizeContexts from the index i on; `new` gives the address base + i to the context for i.
unfoldable pub resize_pointers : ℕ → ℕ → ℕ → List ℕ → List ℕ
resize_pointers base zero i ps = []
resize_pointers base (suc n) i [] = (base + i) ∷ resize_pointers base n (i + 1) []
resize_pointers base (suc n) i (p ∷ ps) = p ∷ resize_pointers base n (i + 1) ps

unfoldable pub grow : ℕ → Table → Table
unfolding resize_pointers
grow size t = record {
  contexts = resize_pointers t.fresh size 0 t.contexts;
  fd_of = λ p. if leb t.fresh p then p - t.fresh else t.fd_of p;
  fresh = t.fresh + size;
}

-- The constructor's resizeContexts.
unfoldable pub new_table : Table
unfolding grow
new_table = grow default_fd_contexts_size (record { contexts = []; fd_of = λ p. p; fresh = 0 })

-- Where a thread stands: outside of addEvent, behind the check with fd and need_resize, with fd_ctx,
-- or behind a read outside the vector.
pub data Lookup : Type 0 where
  outside : Lookup
  checked : ℕ → Bool → Lookup
  found : ℕ → ℕ → Lookup
  out_of_range : ℕ → Lookup

-- `fd_ctx = m_fd_contexts[fd]`.
unfoldable pub fetch : ℕ → Option ℕ → Lookup
fetch fd none = out_of_range fd
fetch fd (some p) = found fd p

-- `shrunk` is no variable of the program: it says whether a resize has made the vector smaller.
pub record Growing : Type 0 where
  pub table : Table
  pub at : ℕ → Lookup
  pub shrunk : Bool

-- The second critical section of addEvent, with need_resize and without.
unfoldable pub resize_and_fetch : Growing → ℕ → ℕ → Growing
unfolding grow fetch
resize_and_fetch s i fd =
    let t : Table = grow (fd * 3 / 2) s.table in
    record {
      table = t;
      at = update s.at i (fetch fd (get_elem? t.contexts fd));
      shrunk = s.shrunk || ltb (fd * 3 / 2) (length s.table.contexts);
    }

unfoldable pub just_fetch : Growing → ℕ → ℕ → Growing
unfolding fetch
just_fetch s i fd = record s { at = update s.at i (fetch fd (get_elem? s.table.contexts fd)) }

pub data Step (s : Growing) : Growing → Type 0 where
  checks :
      (i fd : ℕ)
      → s.at i ≡ outside
      → Step s (record s { at = update s.at i (checked fd (leb (length s.table.contexts) fd)) })
  resizes : (i fd : ℕ) → s.at i ≡ checked fd true → Step s (resize_and_fetch s i fd)
  reads : (i fd : ℕ) → s.at i ≡ checked fd false → Step s (just_fetch s i fd)
  leaves : (i fd p : ℕ) → s.at i ≡ found fd p → Step s (record s { at = update s.at i outside })

pub data Steps (s : Growing) : Growing → Type 0 where
  here : Steps s s
  further : {t u : Growing} → Steps s t → Step t u → Steps s u

-- The threads begin outside of addEvent, on the table that the constructor leaves.
abbrev pub begun : Growing
begun = record { table = new_table; at = λ i. outside; shrunk = false }
