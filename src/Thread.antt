-- ===== src/Thread.antt =====
-- src/thread.cpp and src/semaphore.cpp: how a Thread starts, as steps of the thread that constructs it
-- and of the new thread.
-- sem_wait and sem_post are as documented: a wait returns only where the count is positive, and takes
-- one off; a signal handler may interrupt it, and then Semaphore::wait throws.
pub mod Handshake
pub mod Semaphore
pub mod Release
mod Tests
use eva.Base.{
  ℕ, ◌+◌, ◌-◌, ◌<◌, ◌≡◌, Bool, true, false, Option, none, some, if◌then◌else◌, ℤ, pos, minus_one,
  Bytes, codes, is_empty,
}

-- The constructor before pthread_create, in m_semaphore.wait, returned, thrown by a pthread_create that
-- failed, and thrown by a wait that was interrupted.
pub data Parent : Type 0 where
  creating waiting returned threw interrupted : Parent

-- Thread::run: not there yet, at its beginning, with m_id set, behind SetName, behind notify, and in
-- m_cb.
pub data Child : Type 0 where
  absent entered identified named notified running : Child

-- `name` and `id` are m_name and m_id, `local_name` is t_thread_name of the new thread.
pub record Start : Type 0 where
  pub parent : Parent
  pub child : Child
  pub semaphore : ℕ
  pub id : ℤ
  pub name : Bytes
  pub local_name : Bytes

-- Thread(cb, name) up to pthread_create.
unfoldable pub new_thread : Bytes → Start
new_thread name = record {
  parent = creating;
  child = absent;
  semaphore = 0;
  id = minus_one;
  name = (if is_empty name then codes "UNKNOWN" else name);
  local_name = codes "UNKNOWN";
}

-- SetName on the new thread, whose t_thread is this Thread: the new m_name and t_thread_name.
unfoldable pub set_name : Start → Bytes → Start
set_name s name = if is_empty name then s else record s { name = name; local_name = name }

-- The system gives the new thread the id tid.
pub data Step (tid : ℕ) : Start → Start → Type 0 where
  create :
      (s : Start)
      → s.parent ≡ creating
      → Step tid s (record s { parent = waiting; child = entered })
  create_fails : (s : Start) → s.parent ≡ creating → Step tid s (record s { parent = threw })
  identify :
      (s : Start)
      → s.child ≡ entered
      → Step tid s (record s { child = identified; local_name = s.name; id = pos tid })
  set_names :
      (s : Start)
      → s.child ≡ identified
      → Step tid s (set_name (record s { child = named }) s.local_name)
  notify :
      (s : Start)
      → s.child ≡ named
      → Step tid s (record s { child = notified; semaphore = s.semaphore + 1 })
  wait :
      (s : Start)
      → s.parent ≡ waiting
      → 0 < s.semaphore
      → Step tid s (record s { parent = returned; semaphore = s.semaphore - 1 })
  wait_fails : (s : Start) → s.parent ≡ waiting → Step tid s (record s { parent = interrupted })
  call_back : (s : Start) → s.child ≡ notified → Step tid s (record s { child = running })

pub data Reach (tid : ℕ) (name : Bytes) : Start → Type 0 where
  begun : Reach tid name (new_thread name)
  then_step : {s t : Start} → Reach tid name s → Step tid s t → Reach tid name t
