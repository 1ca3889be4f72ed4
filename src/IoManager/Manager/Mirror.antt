-- ===== src/IoManager/Manager/Mirror.antt =====
-- The manager's contexts, the kernel and m_pending_count agree after every sequence of requests.
use eva.Base.{
  ℕ, ◌*◌, ◌/◌, ◌≤◌, ◌≡◌, ◌≢◌, Bool, List, [], ◌∷◌, Option, none, some, leb, length, get_elem?,
  arith, inl, inr, length-set, u64, ok, Outcome, >>=-returns, pos, negsuc, ℤ, Bool-cases,
}
use eva.IoManager.{Event, Mask, no_bits, FdContext, Epoll, Caller, Slot, IoManager, add_slot}
use eva.IoManager.Slots.{
  image, Sound, add_slot-Sound, del_slot-Sound, cancel_slot-Sound, cancel_all_slot-Sound,
  schedule_slot-Sound,
}
use eva.IoManager.Manager.{
  resize_contexts, Request, adds, dels, cancels, cancels_all, fires, init, focus, put, return_true,
  at_slot, at_fd, make_room, add_event, request, requests,
}
use eva.IoManager.Manager.Results.{at_slot-ok, return_true-ok}
use eva.IoManager.Manager.Vectors.{
  total, total-nil, get_elem?-set, total-set, get_elem?-length, length-resize_contexts,
  get_elem?-resize, total-resize,
}

-- The context at index i is for the descriptor i; epoll has registered exactly its events for this
-- descriptor, and nothing for a descriptor without a context, the Scheduler's own descriptor `tickle`
-- apart; m_pending_count is the number of events of all contexts, modulo 2 ^ 64.
pub record Mirrors (ep : Epoll) (tickle : ℕ) (m : IoManager ep) : Type 0 where
  pub fds : (i : ℕ) (c : FdContext) → get_elem? m.contexts i ≡ some c → c.fd ≡ i
  pub known :
      (i : ℕ) (c : FdContext)
      → get_elem? m.contexts i ≡ some c
      → i ≢ tickle
      → ep.registered m.kernel i ≡ image c.events
  pub unknown : (i : ℕ) → length m.contexts ≤ i → i ≢ tickle → ep.registered m.kernel i ≡ none
  pub counted : u64 m.pending_count ≡ u64 (total m.contexts)

module _ (ep : Epoll) (garbage : ℕ → Mask) (tickle : ℕ) where
  put-Mirrors :
      (m : IoManager ep) (n : ℕ) (c : FdContext) (t : Slot ep)
      → Mirrors ep tickle m
      → get_elem? m.contexts n ≡ some c
      → Sound ep n (focus ep garbage m c) t
      → Mirrors ep tickle (put ep garbage m n t)
  put-Mirrors m n c t v e s = record {
    fds = λ i c' h.
        ground (arith, get_elem?-set m.contexts n i c t.ctx e, v.fds i c', v.fds n c e, s.keeps_fd);
    known = λ i c' h x. ground (
      arith,
      get_elem?-set m.contexts n i c t.ctx e,
      v.known i c',
      s.others i,
      λ (y : n ≢ tickle). s.mirrored (v.known n c e y),
    );
    unknown = λ i h x. ground (
      arith,
      length-set m.contexts n t.ctx,
      get_elem?-length m.contexts n c e,
      v.unknown i,
      s.others i,
    );
    counted = omega (arith, s.counted, v.counted, total-set m.contexts n c t.ctx e);
  }

  make_room-Mirrors :
      (m : IoManager ep) (n : ℕ)
      → ((i : ℕ) → garbage i ≡ no_bits)
      → length m.contexts ≤ n * 3 / 2
      → Mirrors ep tickle m
      → Mirrors ep tickle (record m { contexts = resize_contexts garbage (n * 3 / 2) 0 m.contexts })
  make_room-Mirrors m n g l v = record {
    fds = λ i c h. elim (get_elem?-resize garbage (n * 3 / 2) 0 i m.contexts c h) [
      | inl old ↦ v.fds i c old
      | inr (new, b) ↦ ground arith
    ];
    known = λ i c h x. elim (get_elem?-resize garbage (n * 3 / 2) 0 i m.contexts c h) [
      | inl old ↦ v.known i c old x
      | inr (new, b) ↦ ground (arith, v.unknown i b x, g i)
    ];
    unknown = λ i h x.
        v.unknown i (omega (arith, length-resize_contexts garbage (n * 3 / 2) 0 m.contexts)) x;
    counted = ground (arith, v.counted, total-resize garbage g (n * 3 / 2) 0 m.contexts l);
  }

  at_slot-Mirrors :
      (m m' : IoManager ep) (n : ℕ) (b : Bool) (f : Slot ep → Outcome (Slot ep × Bool))
      → ((s t : Slot ep) (b' : Bool) → s.ctx.fd ≡ n → f s ≡ ok (t, b') → Sound ep n s t)
      → Mirrors ep tickle m
      → at_slot ep garbage m n f ≡ ok (m', b)
      → Mirrors ep tickle m'
  at_slot-Mirrors m m' n b f sound v h =
      let (c, t, e, r, eq) = at_slot-ok ep garbage m m' n b f h in
      rw eq (put-Mirrors m n c t v e (sound (focus ep garbage m c) t b (v.fds n c e) r))

  at_fd-Mirrors :
      (m m' : IoManager ep) (fd : ℤ) (b : Bool) (f : ℕ → Slot ep → Outcome (Slot ep × Bool))
      → ((n : ℕ) (s t : Slot ep) (b' : Bool) → s.ctx.fd ≡ n → f n s ≡ ok (t, b') → Sound ep n s t)
      → Mirrors ep tickle m
      → at_fd ep garbage m fd f ≡ ok (m', b)
      → Mirrors ep tickle m'
  at_fd-Mirrors m m' (negsuc n) b f sound v h = absurd (ground arith)
  at_fd-Mirrors m m' (pos n) b f sound v h = elim (Bool-cases (leb (length m.contexts) n)) [
    | inl e ↦ let same : m ≡ m' = ground (arith, rw e at h) in rw same at v
    | inr e ↦ at_slot-Mirrors m m' n b (f n) (sound n) v (rw e at h)
  ]

  -- Where the context is found after the resizing, the resizing has not shrunk the vector.
  make_room-Mirrors-found :
      (m : IoManager ep) (n : ℕ) (c : FdContext)
      → ((i : ℕ) → garbage i ≡ no_bits)
      → Mirrors ep tickle m
      → get_elem? (make_room ep garbage m n).contexts n ≡ some c
      → Mirrors ep tickle (make_room ep garbage m n)
  make_room-Mirrors-found m n c g v e = elim (Bool-cases (leb (length m.contexts) n)) [
    | inl l ↦ rw l (
        make_room-Mirrors m n g
          (ground (
            arith,
            length-resize_contexts garbage (n * 3 / 2) 0 m.contexts,
            get_elem?-length (resize_contexts garbage (n * 3 / 2) 0 m.contexts) n c,
          ))
          v)
    | inr l ↦ rw l v
  ]

  add_event-Mirrors :
      (m m' : IoManager ep) (who : Caller) (fd : ℤ) (e : Event) (func : Option ℕ) (b : Bool)
      → ((i : ℕ) → garbage i ≡ no_bits)
      → Mirrors ep tickle m
      → add_event ep garbage who m fd e func ≡ ok (m', b)
      → Mirrors ep tickle m'
  unfolding add_event
  add_event-Mirrors m m' who (negsuc n) e func b g v h = absurd (ground arith)
  add_event-Mirrors m m' who (pos n) e func b g v h =
      let room : IoManager ep = make_room ep garbage m n in
      let f = λ (s : Slot ep). return_true ep garbage (add_slot ep who s n e func) in
      let (c, t, found, r, eq) = at_slot-ok ep garbage room m' n b f h in
      at_slot-Mirrors room m' n b f
        (λ s t' b' _ r'. add_slot-Sound ep n s t' who e func (return_true-ok ep garbage _ t' b' r'))
        (make_room-Mirrors-found m n c g v found) h

  -- One request keeps the agreement.
  pub request-Mirrors :
      (m m' : IoManager ep) (r : Request) (b : Bool)
      → ((i : ℕ) → garbage i ≡ no_bits)
      → Mirrors ep tickle m
      → request ep garbage m r ≡ ok (m', b)
      → Mirrors ep tickle m'
  unfolding request
  request-Mirrors m m' (adds who fd e func) b g v h = add_event-Mirrors m m' who fd e func b g v h
  request-Mirrors m m' (dels fd e) b g v h =
      at_fd-Mirrors m m' fd b _ (λ n s t b' _ r. del_slot-Sound ep n s t e b' r) v h
  request-Mirrors m m' (cancels fd e) b g v h =
      at_fd-Mirrors m m' fd b _ (λ n s t b' _ r. cancel_slot-Sound ep n s t e b' r) v h
  request-Mirrors m m' (cancels_all fd) b g v h =
      at_fd-Mirrors m m' fd b _ (λ n s t b' _ r. cancel_all_slot-Sound ep n s t b' r) v h
  request-Mirrors m m' (fires n got failing) b g v h =
      at_slot-Mirrors m m' n b _ (λ s t b' f r. schedule_slot-Sound ep n s t got failing b' f r) v h

  requests-Mirrors_from :
      (m m' : IoManager ep) (rs : List Request)
      → ((i : ℕ) → garbage i ≡ no_bits)
      → Mirrors ep tickle m
      → requests ep garbage m rs ≡ ok m'
      → Mirrors ep tickle m'
  unfolding requests
  requests-Mirrors_from m m' [] g v h = let e : m ≡ m' = ground arith in rw e at v
  requests-Mirrors_from m m' (r ∷ rs) g v h =
      let (p, e, k) =
        >>=-returns (request ep garbage m r)
          (λ (p : IoManager ep × Bool). requests ep garbage p.0 rs) h in
      requests-Mirrors_from p.0 m' rs g (request-Mirrors m p.0 r p.1 g v e) k

  init-Mirrors :
      (k : ep.Kernel)
      → ((i : ℕ) → garbage i ≡ no_bits)
      → ((i : ℕ) → i ≢ tickle → ep.registered k i ≡ none)
      → Mirrors ep tickle (init ep garbage k)
  unfolding init
  init-Mirrors k g none_yet = record {
    fds = λ i c h. elim (get_elem?-resize garbage 32 0 i [] c h) [
      | inl old ↦ ground arith
      | inr (new, b) ↦ ground arith
    ];
    known = λ i c h x. elim (get_elem?-resize garbage 32 0 i [] c h) [
      | inl old ↦ ground arith
      | inr (new, b) ↦ ground (arith, none_yet i x, g i)
    ];
    unknown = λ i l x. none_yet i x;
    counted = omega (arith, total-resize garbage g 32 0 [] (omega arith), total-nil);
  }

  -- Where new contexts have no events, and nothing but the read end of the tickle pipe, which the
  -- Scheduler's constructor adds, is registered at first, every sequence of requests that ends leaves
  -- the contexts, the kernel, this descriptor apart, and m_pending_count in agreement.
  pub requests-Mirrors :
      (k : ep.Kernel) (rs : List Request) (m : IoManager ep)
      → ((i : ℕ) → garbage i ≡ no_bits)
      → ((i : ℕ) → i ≢ tickle → ep.registered k i ≡ none)
      → requests ep garbage (init ep garbage k) rs ≡ ok m
      → Mirrors ep tickle m
  requests-Mirrors k rs m g none_yet h =
      requests-Mirrors_from (init ep garbage k) m rs g (init-Mirrors k g none_yet) h
