-- ===== src/IoManager/Manager/Once.antt =====
-- An event context is never cleared, so each descriptor takes each event once.
use eva.Base.{
  ℕ, ◌*◌, ◌/◌, ◌≤◌, ◌≡◌, refl, Bool, true, false, List, [], ◌∷◌, Option, none, some, leb, length,
  get_elem?, arith, Outcome, ok, abort, >>=-returns, pos, negsuc, ℤ, Bool-cases, inl, inr,
}
use eva.IoManager.{
  Event, no_event, read, write, Mask, FdContext, Epoll, Caller, Slot, IoManager, add_slot,
}
use eva.IoManager.Slots.{
  is_used, add_slot-Sound, del_slot-Sound, cancel_slot-Sound, cancel_all_slot-Sound,
  schedule_slot-Sound,
}
use eva.IoManager.Manager.{
  resize_contexts, Request, adds, dels, cancels, cancels_all, fires, focus, return_true, at_slot,
  at_fd, make_room, add_event, request, requests,
}
use eva.IoManager.Manager.Results.{at_slot-ok, return_true-ok}
use eva.IoManager.Manager.Vectors.{
  get_elem?-set, get_elem?-length, length-resize_contexts, get_elem?-resize_old,
}

-- There is a context at the index, and its part for the event holds a pointer or a function.
abbrev used_in : Option FdContext → Event → Bool
used_in none e = false
used_in (some c) e = is_used c e

abbrev pub used_at : List FdContext → ℕ → Event → Bool
used_at cs i e = used_in (get_elem? cs i) e

module _ (ep : Epoll) where
  add_slot-is_used :
      (who : Caller) (s t : Slot ep) (n : ℕ) (e : Event) (func : Option ℕ)
      → add_slot ep who s n e func ≡ ok t
      → is_used t.ctx e ≡ true
  unfolding add_slot
  add_slot-is_used who s t n no_event func h = refl
  add_slot-is_used who s t n read func h = ground arith
  add_slot-is_used who s t n write func h = ground arith

  add_slot_used :
      (who : Caller) (s : Slot ep) (n : ℕ) (e : Event) (func : Option ℕ)
      → is_used s.ctx e ≡ true
      → add_slot ep who s n e func ≡ abort
  unfolding add_slot
  add_slot_used who s n no_event func h = ground arith
  add_slot_used who s n read func h = ground arith
  add_slot_used who s n write func h = ground arith

module _ (ep : Epoll) (garbage : ℕ → Mask) (i : ℕ) (e : Event) where
  at_slot-used_at :
      (m m' : IoManager ep) (n : ℕ) (b : Bool) (f : Slot ep → Outcome (Slot ep × Bool))
      → ((s t : Slot ep) (b' : Bool)
          → f s ≡ ok (t, b')
          → is_used s.ctx e ≡ true
          → is_used t.ctx e ≡ true)
      → used_at m.contexts i e ≡ true
      → at_slot ep garbage m n f ≡ ok (m', b)
      → used_at m'.contexts i e ≡ true
  at_slot-used_at m m' n b f keep u h =
      let (c, t, found, r, eq) = at_slot-ok ep garbage m m' n b f h in
      rw eq (
        ground
          (arith, get_elem?-set m.contexts n i c t.ctx found, keep (focus ep garbage m c) t b r))

  at_fd-used_at :
      (m m' : IoManager ep) (fd : ℤ) (b : Bool) (f : ℕ → Slot ep → Outcome (Slot ep × Bool))
      → ((n : ℕ) (s t : Slot ep) (b' : Bool)
          → f n s ≡ ok (t, b')
          → is_used s.ctx e ≡ true
          → is_used t.ctx e ≡ true)
      → used_at m.contexts i e ≡ true
      → at_fd ep garbage m fd f ≡ ok (m', b)
      → used_at m'.contexts i e ≡ true
  at_fd-used_at m m' (negsuc n) b f keep u h = absurd (ground arith)
  at_fd-used_at m m' (pos n) b f keep u h = elim (Bool-cases (leb (length m.contexts) n)) [
    | inl l ↦ let same : m ≡ m' = ground (arith, rw l at h) in rw same at u
    | inr l ↦ at_slot-used_at m m' n b (f n) (keep n) u (rw l at h)
  ]

  make_room-used_at :
      (m : IoManager ep) (n : ℕ) (c : FdContext)
      → get_elem? (make_room ep garbage m n).contexts n ≡ some c
      → used_at m.contexts i e ≡ true
      → used_at (make_room ep garbage m n).contexts i e ≡ true
  make_room-used_at m n c found u = elim (Bool-cases (leb (length m.contexts) n)) [
    | inl l ↦ rw l (old (get_elem? m.contexts i) refl u (rw l at found) (ground arith))
    | inr l ↦ rw l u
  ]
    where
      old :
          (o : Option FdContext)
          → get_elem? m.contexts i ≡ o
          → used_in o e ≡ true
          → get_elem? (resize_contexts garbage (n * 3 / 2) 0 m.contexts) n ≡ some c
          → length m.contexts ≤ n
          → used_at (resize_contexts garbage (n * 3 / 2) 0 m.contexts) i e ≡ true
      old none q k f l = absurd (ground arith)
      old (some d) q k f l =
          rw
            (get_elem?-resize_old garbage (n * 3 / 2) 0 i m.contexts d
              (ground (
                arith,
                length-resize_contexts garbage (n * 3 / 2) 0 m.contexts,
                get_elem?-length (resize_contexts garbage (n * 3 / 2) 0 m.contexts) n c f,
              ))
              q)
            k

  request-used_at :
      (m m' : IoManager ep) (r : Request) (b : Bool)
      → used_at m.contexts i e ≡ true
      → request ep garbage m r ≡ ok (m', b)
      → used_at m'.contexts i e ≡ true
  unfolding request
  request-used_at m m' (adds who (negsuc n) e' func) b u h = absurd (ground arith)
  request-used_at m m' (adds who (pos n) e' func) b u h =
      let room : IoManager ep = make_room ep garbage m n in
      let f = λ (s : Slot ep). return_true ep garbage (add_slot ep who s n e' func) in
      let (c, t, found, r, eq) = at_slot-ok ep garbage room m' n b f h in
      at_slot-used_at room m' n b f
        (λ s t' b' r'.
          (add_slot-Sound ep n s t' who e' func (return_true-ok ep garbage _ t' b' r')).still_used
            e)
        (make_room-used_at m n c found u) h
  request-used_at m m' (dels fd e') b u h =
      at_fd-used_at m m' fd b _ (λ n s t b' r. (del_slot-Sound ep n s t e' b' r).still_used e) u h
  request-used_at m m' (cancels fd e') b u h =
      at_fd-used_at m m' fd b _ (λ n s t b' r. (cancel_slot-Sound ep n s t e' b' r).still_used e) u
        h
  request-used_at m m' (cancels_all fd) b u h =
      at_fd-used_at m m' fd b _ (λ n s t b' r. (cancel_all_slot-Sound ep n s t b' r).still_used e) u
        h
  request-used_at m m' (fires n got failing) b u h =
      at_slot-used_at m m' n b _
        (λ s t b' r. (schedule_slot-Sound ep s.ctx.fd s t got failing b' refl r).still_used e) u h

  requests-used_at :
      (m m' : IoManager ep) (rs : List Request)
      → used_at m.contexts i e ≡ true
      → requests ep garbage m rs ≡ ok m'
      → used_at m'.contexts i e ≡ true
  unfolding requests
  requests-used_at m m' [] u h = let same : m ≡ m' = ground arith in rw same at u
  requests-used_at m m' (r ∷ rs) u h =
      let (p, q, k) =
        >>=-returns (request ep garbage m r)
          (λ (p : IoManager ep × Bool). requests ep garbage p.0 rs) h in
      requests-used_at p.0 m' rs (request-used_at m p.0 r p.1 u q) k

module _ (ep : Epoll) (garbage : ℕ → Mask) where
  add_event-used_at :
      (m m' : IoManager ep) (who : Caller) (n : ℕ) (e : Event) (func : Option ℕ) (b : Bool)
      → add_event ep garbage who m (pos n) e func ≡ ok (m', b)
      → used_at m'.contexts n e ≡ true
  unfolding add_event
  add_event-used_at m m' who n e func b h =
      let f = λ (s : Slot ep). return_true ep garbage (add_slot ep who s n e func) in
      let (c, t, found, r, eq) = at_slot-ok ep garbage (make_room ep garbage m n) m' n b f h in
      rw eq (
        ground (
          arith,
          get_elem?-set (make_room ep garbage m n).contexts n n c t.ctx found,
          add_slot-is_used ep who (focus ep garbage (make_room ep garbage m n) c) t n e func
              (return_true-ok ep garbage _ t b r),
        ))

  add_event_used :
      (m : IoManager ep) (who : Caller) (n : ℕ) (e : Event) (func : Option ℕ)
      → used_at m.contexts n e ≡ true
      → add_event ep garbage who m (pos n) e func ≡ abort
  unfolding add_event
  add_event_used m who n e func u = found (get_elem? m.contexts n) refl u
    where
      found :
          (o : Option FdContext)
          → get_elem? m.contexts n ≡ o
          → used_in o e ≡ true
          → add_event ep garbage who m (pos n) e func ≡ abort
      found none q k = absurd (ground arith)
      found (some c) q k =
          let room : leb (length m.contexts) n ≡ false =
            ground (arith, get_elem?-length m.contexts n c q) in
          rw (room, q, add_slot_used ep who (focus ep garbage m c) n e func k) refl

  -- After an addEvent that returned, and whatever requests follow it, deletions and cancellations of
  -- the event and its arrival among them, a second addEvent for the same descriptor and event fails
  -- an ASSERT.
  pub add_event_once :
      (m m1 m2 : IoManager ep) (who who' : Caller) (n : ℕ) (e : Event) (func func' : Option ℕ)
      (b : Bool) (rs : List Request)
      → add_event ep garbage who m (pos n) e func ≡ ok (m1, b)
      → requests ep garbage m1 rs ≡ ok m2
      → add_event ep garbage who' m2 (pos n) e func' ≡ abort
  add_event_once m m1 m2 who who' n e func func' b rs h k =
      add_event_used m2 who' n e func'
        (requests-used_at ep garbage n e m1 m2 rs (add_event-used_at m m1 who n e func b h) k)
