-- ===== src/Thread/Release.antt =====
-- src/thread.cpp: join and the destructor of a Thread.
use eva.Base.{
  ℕ, ◌+◌, ◌≡◌, refl, Bool, true, false, not, ◌||◌, List, [], ◌∷◌, map, Option, none, some, is_some,
  if◌then◌else◌, arith,
}

-- m_thread, none for 0. `joined` and `detached` are no variables of the program: they count the calls
-- of pthread_join that succeeded and those of pthread_detach.
pub record Handle : Type 0 where
  pub thread : Option ℕ
  pub joined : ℕ
  pub detached : ℕ

-- As the constructor leaves it, where pthread_create gave the handle t.
abbrev pub new_handle : ℕ → Handle
new_handle t = record { thread = some t; joined = 0; detached = 0 }

-- join, where pthread_join succeeds or not; the second result says whether it throws.
unfoldable pub join : Bool → Handle → Handle × Bool
join succeeds h =
    if not (is_some h.thread)
    then (h, false)
    else if succeeds
    then (record h { thread = none; joined = h.joined + 1 }, false)
    else (h, true)

unfoldable pub destroy : Handle → Handle
destroy h = if is_some h.thread then record h { detached = h.detached + 1 } else h

-- Calls of join one after another: what each reports.
unfoldable pub joins : List Bool → Handle → Handle × List Bool
unfolding join
joins [] h = (h, [])
joins (b ∷ bs) h =
    let (h', threw) = join b h in let (last, reports) = joins bs h' in (last, threw ∷ reports)

abbrev pub any : List Bool → Bool
any [] = false
any (b ∷ bs) = b || any bs

-- A join throws exactly if it fails and no join before it has succeeded.
abbrev pub fails_before_success : List Bool → List Bool
fails_before_success [] = []
fails_before_success (true ∷ bs) = false ∷ map (λ b. false) bs
fails_before_success (false ∷ bs) = true ∷ fails_before_success bs

joins-done : (bs : List Bool) (h : Handle) → h.thread ≡ none → joins bs h ≡ (h, map (λ b. false) bs)
unfolding joins
joins-done [] h e = refl
joins-done (b ∷ bs) h e = ground (arith, joins-done bs h)

joins-held :
    (bs : List Bool) (t : ℕ)
    → joins bs (new_handle t) ≡ (
      (if any bs then record { thread = none; joined = 1; detached = 0 } else new_handle t),
      fails_before_success bs,
    )
unfolding joins
joins-held [] t = refl
joins-held (true ∷ bs) t =
    rw (joins-done bs (record { thread = none; joined = 1; detached = 0 }) refl)
joins-held (false ∷ bs) t = rw (joins-held bs t)

-- However often join is called on a thread that was created, and whether or not the calls of
-- pthread_join succeed: by the end of the destructor it was joined or detached once, and not both: it
-- was joined exactly if one of the calls succeeds. A call of join throws exactly if its pthread_join
-- fails and no call before it succeeded.
released_once :
    (bs : List Bool) (t : ℕ)
    → let (h, reports) = joins bs (new_handle t) in
      ((destroy h).joined ≡ (if any bs then 1 else 0))
      × ((destroy h).detached ≡ (if any bs then 0 else 1))
      × (reports ≡ fails_before_success bs)
unfolding destroy
released_once bs t = rw (joins-held bs t) (ground arith, ground arith, refl)
