-- ===== src/Locks/Threads.antt =====
-- Threads that go through sections under locks.
use eva.Base.{
  ℕ, zero, suc, ◌<◌, ◌≡◌, Bool, true, false, not, ◌&&◌, ◌||◌, List, [], ◌∷◌, update, ◌==◌,
  if◌then◌else◌,
}
use eva.Locks.{Lock, Nest, done, section}

-- A section that a thread is in: how it has the lock, the lock, and what comes behind the section.
pub record Frame : Type 0 where
  pub shared : Bool
  pub lock : Lock
  pub rest : Nest

-- A thread: what is left of its innermost section, and the sections that it is in, the innermost first.
pub record LockUser : Type 0 where
  pub now : Nest
  pub frames : List Frame

abbrev pub same_lock : Lock → Lock → Bool
same_lock l k = l.rank == k.rank && l.address == k.address

unfoldable pub holds : Lock → List Frame → Bool
holds l [] = false
holds l (f ∷ fs) = same_lock l f.lock || holds l fs

unfoldable pub holds_alone : Lock → List Frame → Bool
holds_alone l [] = false
holds_alone l (f ∷ fs) = (same_lock l f.lock && not f.shared) || holds_alone l fs

-- No thread below n has the lock; no thread below n has it otherwise than by a MutexReadGuard.
unfoldable pub is_free : ℕ → (ℕ → LockUser) → Lock → Bool
unfolding holds
is_free zero ts l = true
is_free (suc n) ts l = not (holds l (ts n).frames) && is_free n ts l

unfoldable pub is_shareable : ℕ → (ℕ → LockUser) → Lock → Bool
unfolding holds_alone
is_shareable zero ts l = true
is_shareable (suc n) ts l = not (holds_alone l (ts n).frames) && is_shareable n ts l

-- A step of a thread: it gets a lock, or it comes to the end of a section and gives the lock back.
pub data Step (n : ℕ) (ts : ℕ → LockUser) : (ℕ → LockUser) → Type 0 where
  enters :
      (i : ℕ) (shared : Bool) (l : Lock) (body rest : Nest)
      → i < n
      → (ts i).now ≡ section shared l body rest
      → (if shared then is_shareable n ts l else is_free n ts l) ≡ true
      → Step n ts (
          update ts i (record {
            now = body;
            frames = record { shared = shared; lock = l; rest = rest } ∷ (ts i).frames;
          }))
  leaves :
      (i : ℕ) (f : Frame) (fs : List Frame)
      → i < n
      → (ts i).now ≡ done
      → (ts i).frames ≡ f ∷ fs
      → Step n ts (update ts i (record { now = f.rest; frames = fs }))

-- k steps of the threads.
pub data Reach (n : ℕ) (ts : ℕ → LockUser) : ℕ → (ℕ → LockUser) → Type 0 where
  begun : {k : ℕ} → k ≡ 0 → Reach n ts k ts
  then_step :
      {j k : ℕ} {us vs : ℕ → LockUser}
      → Reach n ts j us
      → Step n us vs
      → k ≡ suc j
      → Reach n ts k vs
