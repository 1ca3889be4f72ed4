-- ===== src/Mutex/Sections/Freed.antt =====
-- MutexGuard of src/mutex.h: whoever has the mutex can always come to the end of the scope.
use eva.Base.{ℕ, suc, ◌+◌, ◌≡◌, refl, ◌∙◌, List, [], ◌∷◌, none, some, length, arith, ◌<◌, ap}
use eva.Mutex.{Place, outside, acquired, inside, leaving}
use eva.Mutex.Sections.{
  Memory, Access, Guarded, in_turn, GuardStep, constructed, use_memory, destruct, destructed,
  GuardReach, then_guard, Alone, rested, moved,
}
use eva.Mutex.Sections.Atomic.{GuardReach-Inv, GuardReach-Agrees, guards_atomic}

-- How many steps the two ends of a guard have left.
abbrev pub ends_left : Place → ℕ
ends_left outside = 0
ends_left acquired = 3
ends_left inside = 2
ends_left leaving = 1

module _ {ℓ} {S L : Type ℓ} (m : Memory S L) (t : ℕ) where
  -- By n steps of its own the thread gives the mutex back.
  abbrev Frees : ℕ → Guarded S L → Type ℓ
  Frees n g =
      (g' : Guarded S L) × GuardReach m g'
      × Alone t n g g'
      × (g'.mutex.holder ≡ none)
      × (g'.scopes ≡ g.scopes)

  Frees-step :
      {g h : Guarded S L} (k n : ℕ)
      → GuardStep t g h
      → h.scopes ≡ g.scopes
      → n ≡ suc k
      → Frees k h
      → Frees n g
  Frees-step k n s e c (g', r, a, f, e') = (g', r, moved s a c, f, e' ∙ e)

  Frees-leaving : {g : Guarded S L} → GuardReach m g → g.mutex.place t ≡ leaving → Frees 1 g
  Frees-leaving {g} r a =
      let s = destructed g t a in (_, then_guard r s, moved s (rested _ refl) refl, refl, refl)

  Frees-inside :
      (fs : List (Access S L)) {g : Guarded S L}
      → GuardReach m g
      → g.mutex.place t ≡ inside
      → g.rest t ≡ fs
      → Frees (length fs + 2) g
  Frees-inside [] {g} r a b =
      let s = destruct g t a b in
      Frees-step 1 2 s refl refl (Frees-leaving (then_guard r s) (ground arith))
  Frees-inside (f ∷ fs) {g} r a b =
      let s = use_memory g t f fs a b in
      Frees-step (length fs + 2) (suc (length fs) + 2) s refl (omega arith)
        (Frees-inside fs (then_guard r s) a (ground arith))

  Frees-at :
      (q : Place) {g : Guarded S L}
      → GuardReach m g
      → g.mutex.holder ≡ some t
      → 0 < t
      → g.mutex.place t ≡ q
      → Frees (length (g.rest t) + ends_left q) g
  Frees-at outside r h p a = absurd ((GuardReach-Inv r).placed t h a)
  Frees-at acquired {g} r h p a =
      let s = constructed g t a p in
      Frees-step (length (g.rest t) + 2) (length (g.rest t) + 3) s refl (omega arith)
        (Frees-inside (g.rest t) (then_guard r s) (ground arith) refl)
  Frees-at inside {g} r h p a = Frees-inside (g.rest t) r a refl
  Frees-at leaving {g} r h p a =
      let e : length (g.rest t) + 1 ≡ 1 = ground (arith, (GuardReach-Agrees r).over t a) in
      rw e (Frees-leaving r a)

  -- Whoever has the mutex frees it by as many steps of its own as accesses are left in its scope and
  -- at most three for the ends of the guard, whatever the other threads are doing: it is never in need
  -- of them. The memory is then as if all the scopes that were entered had run in turn. Thread ids
  -- are not 0.
  pub guards_freed :
      (g : Guarded S L)
      → GuardReach m g
      → g.mutex.holder ≡ some t
      → 0 < t
      → (g' : Guarded S L) × Alone t (length (g.rest t) + ends_left (g.mutex.place t)) g g'
        × (g'.mutex.holder ≡ none)
        × (g'.memory ≡ in_turn g.scopes m)
  guards_freed g r h p =
      let (g', r', a, f, e) = Frees-at (g.mutex.place t) r h p refl in
      (g', a, f, (guards_atomic m g' r').1 f ∙ ap (λ ss. in_turn ss m) e)
