-- ===== src/Mutex/Sections.antt =====
-- MutexGuard of src/mutex.h: threads that touch a memory only in the scope of a guard, as the
-- interleaved steps of their constructors, accesses and destructors.
pub mod Atomic
pub mod Freed
mod Tests
use eva.Base.{ℕ, suc, ◌≡◌, List, [], ◌∷◌, ◌++◌, none, update, ◌<◌}
use eva.Mutex.{outside, acquired, inside, leaving, Mutex, new_mutex, took, noted, cleared, freed}

-- The memory that the threads share, and what each has for itself.
pub record Memory {ℓ} (S L : Type ℓ) : Type ℓ where
  pub shared : S
  pub locals : ℕ → L

-- One access: a thread reads and writes what is shared and its own.
abbrev pub Access {ℓ} : Type ℓ → Type ℓ → Type ℓ
Access S L = S × L → S × L

-- The scope of a guard: its thread and the accesses that the thread makes in it.
pub record Scope {ℓ} (S L : Type ℓ) : Type ℓ where
  pub thread : ℕ
  pub body : List (Access S L)

-- `rest` is what each thread has still to do in the scope of its guard. `scopes` notes the scopes
-- in the order in which their constructors got the pthread mutex.
pub record Guarded {ℓ} (S L : Type ℓ) : Type ℓ where
  pub mutex : Mutex
  pub memory : Memory S L
  pub rest : ℕ → List (Access S L)
  pub scopes : List (Scope S L)

module _ {ℓ} {S L : Type ℓ} where
  unfoldable pub new_guarded : Memory S L → Guarded S L
  unfolding new_mutex
  new_guarded m = record { mutex = new_mutex; memory = m; rest = λ t. []; scopes = [] }

  unfoldable pub touch : ℕ → Access S L → Memory S L → Memory S L
  touch t f m =
      let r : S × L = f (m.shared, m.locals t) in
      record { shared = r.0; locals = update m.locals t r.1 }

  -- The scopes one after another, with no one between.
  unfoldable pub touch_all : ℕ → List (Access S L) → Memory S L → Memory S L
  unfolding touch
  touch_all t [] m = m
  touch_all t (f ∷ fs) m = touch_all t fs (touch t f m)

  unfoldable pub in_turn : List (Scope S L) → Memory S L → Memory S L
  unfolding touch_all
  in_turn [] m = m
  in_turn (s ∷ ss) m = in_turn ss (touch_all s.thread s.body m)

  abbrev pub enter : Guarded S L → ℕ → List (Access S L) → Guarded S L
  enter g t body = record g {
    mutex = took g.mutex t;
    rest = update g.rest t body;
    scopes = g.scopes ++ record { thread = t; body = body } ∷ [];
  }

  abbrev pub access : Guarded S L → ℕ → Access S L → List (Access S L) → Guarded S L
  access g t f fs = record g { memory = touch t f g.memory; rest = update g.rest t fs }

  -- A step of a thread: the two halves of the lock that the constructor makes, an access, and the two
  -- halves of the unlock that the destructor makes at the end of the scope.
  pub data GuardStep : ℕ → Guarded S L → Guarded S L → Type ℓ where
    construct :
        (g : Guarded S L) (t : ℕ) (body : List (Access S L))
        → g.mutex.place t ≡ outside
        → g.mutex.holder ≡ none
        → GuardStep t g (enter g t body)
    constructed :
        (g : Guarded S L) (t : ℕ)
        → g.mutex.place t ≡ acquired
        → 0 < t
        → GuardStep t g (record g { mutex = noted g.mutex t })
    use_memory :
        (g : Guarded S L) (t : ℕ) (f : Access S L) (fs : List (Access S L))
        → g.mutex.place t ≡ inside
        → g.rest t ≡ f ∷ fs
        → GuardStep t g (access g t f fs)
    destruct :
        (g : Guarded S L) (t : ℕ)
        → g.mutex.place t ≡ inside
        → g.rest t ≡ []
        → GuardStep t g (record g { mutex = cleared g.mutex t })
    destructed :
        (g : Guarded S L) (t : ℕ)
        → g.mutex.place t ≡ leaving
        → GuardStep t g (record g { mutex = freed g.mutex t })

  pub data GuardReach (m : Memory S L) : Guarded S L → Type ℓ where
    new_guards : GuardReach m (new_guarded m)
    then_guard : {t : ℕ} {g g' : Guarded S L} → GuardReach m g → GuardStep t g g' → GuardReach m g'

  -- Steps of one thread alone, counted.
  pub data Alone (t : ℕ) : ℕ → Guarded S L → Guarded S L → Type ℓ where
    rested : {n : ℕ} (g : Guarded S L) → n ≡ 0 → Alone t n g g
    moved :
        {k n : ℕ} {g g' h : Guarded S L}
        → GuardStep t g g'
        → Alone t k g' h
        → n ≡ suc k
        → Alone t n g h
