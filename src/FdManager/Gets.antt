-- ===== src/FdManager/Gets.antt =====
-- src/fd_manager.cpp: get(fd, true) with its two critical sections, as steps of several threads, with
-- del of any thread between them.
pub mod Held
pub mod Doubled
mod Tests
use eva.Base.{ℕ, ◌≡◌, ◌≢◌, Option, none, some, pos, update, ok}
use eva.FdManager.{FdInfo, FdManager, create, del}
use eva.FdManager.Lookup.{find}

-- Where a thread stands: outside of get, behind the read lock with no object for its descriptor, or
-- with the object that get returned for it.
pub data Getting : Type 0 where
  outside : Getting
  missing : ℕ → Getting
  holding : ℕ → ℕ → Getting

-- What the section under the read lock finds.
unfoldable pub look : ℕ → Option ℕ → Getting
look n none = missing n
look n (some q) = holding n q

pub record Gets : Type 0 where
  pub manager : FdManager
  pub at : ℕ → Getting

-- The address p of a new object is in no use.
pub record IsUnused (s : Gets) (p : ℕ) : Type 0 where
  pub not_managed : (n : ℕ) → find s.manager n ≢ some p
  pub not_held : (i n : ℕ) → s.at i ≢ holding n p

pub data Step (info : FdInfo) (s : Gets) : Gets → Type 0 where
  looks :
      (i n : ℕ)
      → s.at i ≡ outside
      → Step info s (record s { at = update s.at i (look n (find s.manager n)) })
  creates :
      (i n p : ℕ) (m : FdManager)
      → s.at i ≡ missing n
      → IsUnused s p
      → create info s.manager n p ≡ ok (m, some p)
      → Step info s (record { manager = m; at = update s.at i (holding n p) })
  deletes :
      (n : ℕ) (m : FdManager)
      → del s.manager (pos n) ≡ ok m
      → Step info s (record s { manager = m })
  leaves :
      (i n p : ℕ) → s.at i ≡ holding n p → Step info s (record s { at = update s.at i outside })

pub data Steps (info : FdInfo) (s : Gets) : Gets → Type 0 where
  here : Steps info s s
  further : {t u : Gets} → Steps info s t → Step info t u → Steps info s u
