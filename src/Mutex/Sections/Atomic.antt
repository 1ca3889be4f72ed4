-- ===== src/Mutex/Sections/Atomic.antt =====
-- MutexGuard of src/mutex.h: what threads do in the scopes of their guards happens in one piece.
use eva.Base.{
  ℕ, ◌≡◌, ◌≢◌, refl, sym, ap, ◌∙◌, List, [], ◌∷◌, ◌++◌, Option, none, some, update, arith,
}
use eva.Mutex.{
  outside, leaving, new_mutex, lock_mutex, note_thread, clear_thread, unlock_mutex, Reach, made,
  then_step,
}
use eva.Mutex.Owner.{Inv, Reach-Inv_mutex}
use eva.Mutex.Sections.{
  Memory, Access, Scope, Guarded, new_guarded, touch_all, in_turn, construct, constructed,
  use_memory, destruct, destructed, GuardReach, new_guards, then_guard,
}

module _ {ℓ} {S L : Type ℓ} where
  in_turn-append :
      (ss : List (Scope S L)) (s : Scope S L) (m : Memory S L)
      → in_turn (ss ++ s ∷ []) m ≡ touch_all s.thread s.body (in_turn ss m)
  unfolding in_turn
  in_turn-append [] s m = refl
  in_turn-append (x ∷ ss) s m = in_turn-append ss s (touch_all x.thread x.body m)

  -- The guards are built on the steps of the Mutex.
  GuardReach-Reach : {m : Memory S L} {g : Guarded S L} → GuardReach m g → Reach g.mutex
  unfolding new_guarded
  GuardReach-Reach new_guards = made
  GuardReach-Reach (then_guard r (construct g t body a b)) =
      then_step (GuardReach-Reach r) (lock_mutex g.mutex t a b)
  GuardReach-Reach (then_guard r (constructed g t a b)) =
      then_step (GuardReach-Reach r) (note_thread g.mutex t a b)
  GuardReach-Reach (then_guard r (use_memory g t f fs a b)) = GuardReach-Reach r
  GuardReach-Reach (then_guard r (destruct g t a b)) =
      then_step (GuardReach-Reach r) (clear_thread g.mutex t a)
  GuardReach-Reach (then_guard r (destructed g t a)) =
      then_step (GuardReach-Reach r) (unlock_mutex g.mutex t a)

  pub GuardReach-Inv : {m : Memory S L} {g : Guarded S L} → GuardReach m g → Inv g.mutex
  GuardReach-Inv r = Reach-Inv_mutex (GuardReach-Reach r)

  -- A memory once the holder of the mutex has done the rest of its scope.
  abbrev pub settled : Option ℕ → (ℕ → List (Access S L)) → Memory S L → Memory S L
  settled none rest m = m
  settled (some t) rest m = touch_all t (rest t) m

  pub record Agrees (m : Memory S L) (g : Guarded S L) : Type ℓ where
    pub now : settled g.mutex.holder g.rest g.memory ≡ in_turn g.scopes m
    pub over : (t : ℕ) → g.mutex.place t ≡ leaving → g.rest t ≡ []

  settled_of_holder :
      {m : Memory S L} {g : Guarded S L} (t : ℕ)
      → Agrees m g
      → g.mutex.holder ≡ some t
      → touch_all t (g.rest t) g.memory ≡ in_turn g.scopes m
  settled_of_holder {m} {g} t v h = ground (arith, v.now)

  settled_of_free :
      {m : Memory S L} {g : Guarded S L}
      → Agrees m g
      → g.mutex.holder ≡ none
      → g.memory ≡ in_turn g.scopes m
  settled_of_free {m} {g} v h = ground (arith, v.now)

  begun :
      {m : Memory S L} {g : Guarded S L} (t : ℕ) (body : List (Access S L))
      → Agrees m g
      → g.mutex.holder ≡ none
      → touch_all t (update g.rest t body t) g.memory
        ≡ in_turn (g.scopes ++ record { thread = t; body = body } ∷ []) m
  begun {m} {g} t body v h =
      let e : update g.rest t body t ≡ body = ground arith in
      rw e (
        ap (touch_all t body) (settled_of_free v h)
        ∙ sym (in_turn-append g.scopes (record { thread = t; body = body }) m))

  pub GuardReach-Agrees : {m : Memory S L} {g : Guarded S L} → GuardReach m g → Agrees m g
  unfolding new_guarded new_mutex in_turn touch_all
  GuardReach-Agrees new_guards = record { now = refl; over = λ t h. refl }
  GuardReach-Agrees {m} (then_guard r (construct g t body a b)) =
      let v = GuardReach-Agrees r in
      record { now = begun t body v b; over = λ u h. ground (arith, v.over u) }
  GuardReach-Agrees {m} (then_guard r (constructed g t a b)) =
      let v = GuardReach-Agrees r in record { now = v.now; over = λ u h. ground (arith, v.over u) }
  GuardReach-Agrees {m} (then_guard r (use_memory g t f fs a b)) =
      let v = GuardReach-Agrees r in
      let i = (GuardReach-Inv r).held t (λ e. cc) in
      let s = settled_of_holder t v i in
      record { now = ground (arith, s); over = λ u h. ground (arith, v.over u) }
  GuardReach-Agrees {m} (then_guard r (destruct g t a b)) =
      let v = GuardReach-Agrees r in record { now = v.now; over = λ u h. ground (arith, v.over u) }
  GuardReach-Agrees {m} (then_guard r (destructed g t a)) =
      let v = GuardReach-Agrees r in
      let i = (GuardReach-Inv r).held t (λ e. cc) in
      let s = settled_of_holder t v i in
      record { now = ground (arith, s, v.over t a); over = λ u h. ground (arith, v.over u) }

  -- Threads that touch a memory only in the scopes of guards of one Mutex, in any interleaving of the
  -- halves of lock and unlock and of the single accesses: at most one thread is between the two ends
  -- of a guard. While no thread has the mutex, the memory, what is shared and what each thread has for
  -- itself, is as if the scopes had been run one after another, each in one piece, in the order in
  -- which they got the mutex; while a thread has it, the memory becomes this by the rest of its scope.
  pub guards_atomic :
      (m : Memory S L) (g : Guarded S L)
      → GuardReach m g
      → ((t u : ℕ) → g.mutex.place t ≢ outside → g.mutex.place u ≢ outside → t ≡ u)
        × (g.mutex.holder ≡ none → g.memory ≡ in_turn g.scopes m)
        × ((t : ℕ) → g.mutex.holder ≡ some t → touch_all t (g.rest t) g.memory ≡ in_turn g.scopes m)
  guards_atomic m g r =
      let i = GuardReach-Inv r in
      let v = GuardReach-Agrees r in
      (
        (λ t u a b. ground (arith, i.held t a, i.held u b)),
        (λ h. settled_of_free v h),
        (λ t h. settled_of_holder t v h),
      )
