-- ===== src/IoManager/Manager/Vectors.antt =====
-- The vector of contexts under a write and under a resize.
use eva.Base.{
  ℕ, zero, suc, ◌+◌, ◌≤◌, ◌<◌, ◌≡◌, refl, List, [], ◌∷◌, some, ◌==◌, if◌then◌else◌, length,
  get_elem?, set, arith, ◌⊎◌, inl, inr,
}
use eva.IoManager.{Mask, no_bits, FdContext}
use eva.IoManager.Slots.{bits}
use eva.IoManager.Manager.{new_context, resize_contexts}

-- The number of events of all descriptors.
pub total : List FdContext → ℕ
total [] = 0
total (c ∷ cs) = bits c.events + total cs

pub total-nil : total [] ≡ 0
unfolding total
total-nil = refl

pub get_elem?-set :
    (cs : List FdContext) (i j : ℕ) (old v : FdContext)
    → get_elem? cs i ≡ some old
    → get_elem? (set cs i v) j ≡ (if i == j then some v else get_elem? cs j)
get_elem?-set [] i j old v h = ground arith
get_elem?-set (c ∷ cs) zero zero old v h = ground arith
get_elem?-set (c ∷ cs) zero (suc j) old v h = ground arith
get_elem?-set (c ∷ cs) (suc i) zero old v h = ground arith
get_elem?-set (c ∷ cs) (suc i) (suc j) old v h = ground (arith, get_elem?-set cs i j old v h)

pub total-set :
    (cs : List FdContext) (i : ℕ) (old v : FdContext)
    → get_elem? cs i ≡ some old
    → total (set cs i v) + bits old.events ≡ total cs + bits v.events
unfolding total
total-set [] i old v h = ground arith
total-set (c ∷ cs) zero old v h = ground arith
total-set (c ∷ cs) (suc i) old v h = ground (arith, total-set cs i old v h)

pub get_elem?-length :
    (cs : List FdContext) (i : ℕ) (c : FdContext) → get_elem? cs i ≡ some c → i < length cs
get_elem?-length [] i c h = ground arith
get_elem?-length (x ∷ cs) zero c h = omega arith
get_elem?-length (x ∷ cs) (suc i) c h = omega (arith, get_elem?-length cs i c h)

module _ (garbage : ℕ → Mask) where
  pub length-resize_contexts :
      (n i : ℕ) (cs : List FdContext) → length (resize_contexts garbage n i cs) ≡ n
  unfolding resize_contexts
  length-resize_contexts zero i cs = refl
  length-resize_contexts (suc n) i [] = omega (arith, length-resize_contexts n (i + 1) [])
  length-resize_contexts (suc n) i (c ∷ cs) = omega (arith, length-resize_contexts n (i + 1) cs)

  -- A resize to at least the old size keeps the contexts that there are.
  pub get_elem?-resize_old :
      (n i j : ℕ) (cs : List FdContext) (c : FdContext)
      → length cs ≤ n
      → get_elem? cs j ≡ some c
      → get_elem? (resize_contexts garbage n i cs) j ≡ some c
  unfolding resize_contexts
  get_elem?-resize_old zero i j [] c l h = ground arith
  get_elem?-resize_old zero i j (x ∷ cs) c l h = absurd (omega arith)
  get_elem?-resize_old (suc n) i j [] c l h = ground arith
  get_elem?-resize_old (suc n) i zero (x ∷ cs) c l h = h
  get_elem?-resize_old (suc n) i (suc j) (x ∷ cs) c l h =
      get_elem?-resize_old n (i + 1) j cs c (omega arith) h

  -- And every context of the result is an old one or a new one behind these.
  pub get_elem?-resize :
      (n i j : ℕ) (cs : List FdContext) (c : FdContext)
      → get_elem? (resize_contexts garbage n i cs) j ≡ some c
      → (get_elem? cs j ≡ some c) ⊎ ((c ≡ new_context garbage (i + j)) × (length cs ≤ j))
  unfolding resize_contexts
  get_elem?-resize zero i j cs c h = ground arith
  get_elem?-resize (suc n) i zero [] c h = inr (ground arith, omega arith)
  get_elem?-resize (suc n) i (suc j) [] c h = ground (arith, get_elem?-resize n (i + 1) j [] c h)
  get_elem?-resize (suc n) i zero (x ∷ cs) c h = inl h
  get_elem?-resize (suc n) i (suc j) (x ∷ cs) c h =
      ground (arith, get_elem?-resize n (i + 1) j cs c h)

  pub total-resize :
      ((i : ℕ) → garbage i ≡ no_bits)
      → (n i : ℕ) (cs : List FdContext) → length cs ≤ n
      → total (resize_contexts garbage n i cs) ≡ total cs
  unfolding resize_contexts total
  total-resize g zero i [] l = refl
  total-resize g zero i (c ∷ cs) l = absurd (omega arith)
  total-resize g (suc n) i [] l = ground (arith, g i, total-resize g n (i + 1) [])
  total-resize g (suc n) i (c ∷ cs) l = ground (arith, total-resize g n (i + 1) cs)
