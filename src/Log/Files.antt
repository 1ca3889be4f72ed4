-- ===== src/Log/Files.antt =====
-- FileLogItem of src/log.cpp: where its loop stops.
use eva.Base.{
  ℕ, zero, suc, ◌+◌, ◌≤◌, ◌<◌, ◌≡◌, refl, false, [], ◌∷◌, inl, inr, ◌==◌, if◌then◌else◌, pos, ok,
  undefined, arith, Bytes, Bool-cases, ◌∙◌,
}
use eva.Log.{skip_dirs}

-- How many directories a path names before its last component.
abbrev pub depth_of : Bytes → ℕ
depth_of [] = 0
depth_of (c ∷ s) = (if c == b'/' then 1 else 0) + depth_of s

-- What stands behind the first n slashes.
abbrev pub behind : ℕ → Bytes → Bytes
behind zero s = s
behind (suc n) [] = []
behind (suc n) (c ∷ s) = behind (if c == b'/' then n else suc n) s

-- No byte of the text is a newline.
abbrev pub IsOneLine : Bytes → Type 0
IsOneLine [] = Unit {0}
IsOneLine (c ∷ s) = ((c == b'\n') ≡ false) × IsOneLine s

-- The loop goes on from a byte that is no newline.
skip_dirs_step :
    (n c : ℕ) (it : Bytes)
    → (c == b'\n') ≡ false
    → skip_dirs (pos (suc n)) (c ∷ it) ≡ skip_dirs (if c == b'/' then pos n else pos (suc n)) it
unfolding skip_dirs
skip_dirs_step n c it l = let e : (suc n == 0) ≡ false = ground arith in rw l (rw e)

skip_dirs_within :
    (n : ℕ) (file : Bytes)
    → IsOneLine file
    → n ≤ depth_of file
    → skip_dirs (pos n) file ≡ ok (behind n file)
unfolding skip_dirs
skip_dirs_within zero [] l h = refl
skip_dirs_within (suc n) [] l h = absurd (omega arith)
skip_dirs_within zero (c ∷ file) l h = rw l.0
skip_dirs_within (suc n) (c ∷ file) l h =
    skip_dirs_step n c file l.0 ∙ (elim (Bool-cases (c == b'/')) [
      | inl e ↦ rw (e, behind) (skip_dirs_within n file l.1 (ground arith))
      | inr e ↦ rw (e, behind) (skip_dirs_within (suc n) file l.1 (ground arith))
    ])

skip_dirs_beyond :
    (n : ℕ) (file : Bytes) → IsOneLine file → depth_of file < n → skip_dirs (pos n) file ≡ undefined
unfolding skip_dirs
skip_dirs_beyond zero file l h = absurd (omega arith)
skip_dirs_beyond (suc n) [] l h = ground arith
skip_dirs_beyond (suc n) (c ∷ file) l h =
    skip_dirs_step n c file l.0 ∙ (elim (Bool-cases (c == b'/')) [
      | inl e ↦ rw e (skip_dirs_beyond n file l.1 (ground arith))
      | inr e ↦ rw e (skip_dirs_beyond (suc n) file l.1 (ground arith))
    ])

-- On a path of one line, the loop of FileLogItem with a depth of n gives what stands behind the first
-- n slashes, where there are as many; otherwise it reads beyond the end of the path.
pub skip_dirs_lem :
    (n : ℕ) (file : Bytes)
    → IsOneLine file
    → ((n ≤ depth_of file) → skip_dirs (pos n) file ≡ ok (behind n file))
      × ((depth_of file < n) → skip_dirs (pos n) file ≡ undefined)
skip_dirs_lem n file l = (skip_dirs_within n file l, skip_dirs_beyond n file l)
