-- ===== src/IoManager/Polling/Conserved.antt =====
-- No wake-up is lost or doubled between the descriptors and the task queue.
use eva.Base.{
  subst, Option, some, Outcome, abort, undefined, ℕ, ◌+◌, ◌≡◌, refl, sym, ap, ◌∙◌, Bool, List, [],
  ◌∷◌, ◌++◌, length, length-append, get_elem?, ok, arith, if◌then◌else◌, ◌==◌, >>=-returns,
  Bool-cases, inl, inr,
}
use mathlib.Core.List.{append_assoc, append-nil}
use eva.Scheduler.{Task, Scheduler, schedule, Polled, tickled, io}
use eva.IoManager.{Mask, no_bits, Epoll, IoManager, Slot, FdContext, schedule_slot}
use eva.IoManager.Manager.{schedule_event, request, fires, focus, put}
use eva.IoManager.Manager.Results.{at_slot-ok}
use eva.IoManager.Manager.Vectors.{total, total-set, get_elem?-set}
use eva.IoManager.Manager.Mirror.{Mirrors, request-Mirrors}
use eva.IoManager.Polling.{deliver, IoEvent, Polling, served_by, serve_event, serve_events}
use eva.IoManager.Polling.Served.{Sends, lost_tasks, schedule_slot-SendsLost}

-- The tasks that are sent to the scheduler self.
abbrev pub own : ℕ → List (ℕ × Task) → List Task
own self [] = []
own self ((target, tk) ∷ sent) = if target == self then tk ∷ own self sent else own self sent

own-append : (self : ℕ) (xs ys : List (ℕ × Task)) → own self (xs ++ ys) ≡ own self xs ++ own self ys
own-append self [] ys = refl
own-append self ((target, tk) ∷ xs) ys = ground (arith, own-append self xs ys)

tasks-schedule : (s : Scheduler) (tk : Task) → (schedule s tk).tasks ≡ s.tasks ++ (tk ∷ [])
unfolding schedule
tasks-schedule s tk = ground arith

pending-schedule : (s : Scheduler) (tk : Task) → (schedule s tk).pending_count ≡ s.pending_count
unfolding schedule
pending-schedule s tk = ground arith

deliver-own :
    (self : ℕ) (sent : List (ℕ × Task)) (s : Scheduler)
    → ((deliver self sent s).tasks ≡ s.tasks ++ own self sent)
      × ((deliver self sent s).pending_count ≡ s.pending_count)
unfolding deliver
deliver-own self [] s = (sym (append-nil s.tasks), refl)
deliver-own self ((target, tk) ∷ sent) s = elim (Bool-cases (target == self)) [
  | inl e ↦
      let (a, b) = deliver-own self sent (schedule s tk) in
      rw (e, deliver)
        (
          a
              ∙ ap (λ l. l ++ own self sent) (tasks-schedule s tk)
              ∙ append_assoc s.tasks (tk ∷ []) (own self sent),
          b ∙ pending-schedule s tk,
        )
  | inr e ↦ rw (e, deliver) (deliver-own self sent s)
]

abbrev lost_of : Option FdContext → Option FdContext → List (ℕ × Task)
lost_of (some c) (some c') = lost_tasks c c'
lost_of _ _ = []

-- The tasks that the context at the index n holds for the events that it has in m and no more in m'.
abbrev pub lost_between : {ep : Epoll} → IoManager ep → IoManager ep → ℕ → List (ℕ × Task)
lost_between m m' n = lost_of (get_elem? m.contexts n) (get_elem? m'.contexts n)

-- Those tasks over all rounds of the loop, each compared from before to behind its round.
unfoldable pub lost_over :
    (ep : Epoll) (garbage : ℕ → Mask)
    → ℕ
    → Polling ep garbage
    → List (Polled IoEvent)
    → List (ℕ × Task)
lost_over ep garbage self p [] = []
lost_over ep garbage self p (tickled ∷ es) =
    lost_over ep garbage self (record p { sched = record p.sched { pipe = 0 } }) es
lost_over ep garbage self p (io e ∷ es) = elim (serve_event ep garbage self p e) [
  | abort ↦ []
  | undefined ↦ []
  | ok p' ↦ lost_between p.events p'.events e.index ++ lost_over ep garbage self p' es
]

module _ (ep : Epoll) (garbage : ℕ → Mask) (tickle self : ℕ) where
  -- From p to q the calls of schedule in `sent` were made.
  record Conserves (p q : Polling ep garbage) (sent : List (ℕ × Task)) : Type 0 where
    queued : q.sched.tasks ≡ p.sched.tasks ++ own self sent
    fewer_events : total q.events.contexts + length sent ≡ total p.events.contexts
    still_mirrors : Mirrors ep tickle p.events → Mirrors ep tickle q.events
    one_count :
        p.sched.pending_count ≡ p.events.pending_count
        → q.sched.pending_count ≡ q.events.pending_count

  Conserves-trans :
      (p q r : Polling ep garbage) (sent more : List (ℕ × Task))
      → Conserves p q sent
      → Conserves q r more
      → Conserves p r (sent ++ more)
  Conserves-trans p q r sent more a b = record {
    queued =
        b.queued
        ∙ ap (λ l. l ++ own self more) a.queued
        ∙ append_assoc p.sched.tasks (own self sent) (own self more)
        ∙ ap (λ l. p.sched.tasks ++ l) (sym (own-append self sent more));
    fewer_events = omega (arith, a.fewer_events, b.fewer_events, length-append sent more);
    still_mirrors = λ v. b.still_mirrors (a.still_mirrors v);
    one_count = λ e. b.one_count (a.one_count e);
  }

  cleared-Mirrors :
      (m : IoManager ep) → Mirrors ep tickle m → Mirrors ep tickle (record m { sent = [] })
  cleared-Mirrors m v = record {
    fds = v.fds;
    known = v.known;
    unknown = v.unknown;
    counted = v.counted;
  }

  -- The manager without the calls of schedule that were made.
  abbrev cleared : IoManager ep → IoManager ep
  cleared m = record m { sent = [] }

  sent-Conserves :
      (p : Polling ep garbage) (m : IoManager ep) (done : Bool) (n : ℕ) (c : FdContext)
      (t : Slot ep) (new : List (ℕ × Task))
      → get_elem? p.events.contexts n ≡ some c
      → Sends ep (focus ep garbage (cleared p.events) c) t new
      → m ≡ put ep garbage (cleared p.events) n t
      → (Mirrors ep tickle p.events → Mirrors ep tickle m)
      → Conserves p (served_by ep garbage self p.sched (m, done)) new
  sent-Conserves p m done n c t new found sends e keeps =
      let (queue, count) =
        deliver-own self m.sent (record p.sched { pending_count = m.pending_count }) in
      record {
        queued =
            queue
            ∙ ap (λ l. p.sched.tasks ++ own self l)
                (ap (λ (x : IoManager ep). x.sent) e ∙ sends.sent_new);
        fewer_events = omega (
          arith,
          ap (λ (x : IoManager ep). total x.contexts) e,
          total-set p.events.contexts n c t.ctx found,
          sends.fewer,
        );
        still_mirrors = keeps;
        one_count = λ h. count;
      }

  put-lost :
      (m : IoManager ep) (n : ℕ) (c : FdContext) (t : Slot ep)
      → get_elem? m.contexts n ≡ some c
      → lost_between m (put ep garbage m n t) n ≡ lost_tasks c t.ctx
  put-lost m n c t found =
      let back : get_elem? (put ep garbage m n t).contexts n ≡ some t.ctx =
        ground (arith, get_elem?-set m.contexts n n c t.ctx found) in
      rw (found, back) refl

  served_by-Conserves :
      (p : Polling ep garbage) (m : IoManager ep) (done : Bool) (e : IoEvent)
      → ((i : ℕ) → garbage i ≡ no_bits)
      → schedule_event ep garbage (cleared p.events) e.index e.got e.failing ≡ ok (m, done)
      → Conserves p (served_by ep garbage self p.sched (m, done)) (lost_between p.events m e.index)
  unfolding schedule_event request
  served_by-Conserves p m done e g h =
      let (c, t, found, run, put_back) =
        at_slot-ok ep garbage (cleared p.events) m e.index done
          (λ (s : Slot ep). schedule_slot ep s e.got e.failing) h in
      let (new, sl) =
        schedule_slot-SendsLost ep (focus ep garbage (cleared p.events) c) t e.got e.failing done
          run in
      let exact : new ≡ lost_between p.events m e.index =
        sl.exact
        ∙ sym (put-lost (cleared p.events) e.index c t found)
        ∙ ap (λ (x : IoManager ep). lost_between p.events x e.index) (sym put_back) in
      subst (λ l. Conserves p (served_by ep garbage self p.sched (m, done)) l) exact
        (sent-Conserves p m done e.index c t new found sl.sends put_back (λ v.
          request-Mirrors ep garbage tickle (cleared p.events) m (fires e.index e.got e.failing)
            done g (cleared-Mirrors p.events v) h))

  serve_event-Conserves :
      (p q : Polling ep garbage) (e : IoEvent)
      → ((i : ℕ) → garbage i ≡ no_bits)
      → serve_event ep garbage self p e ≡ ok q
      → Conserves p q (lost_between p.events q.events e.index)
  unfolding serve_event
  serve_event-Conserves p q e g h =
      let (r, e1, e2) =
        >>=-returns (schedule_event ep garbage (cleared p.events) e.index e.got e.failing)
          (λ (r : IoManager ep × Bool). ok (served_by ep garbage self p.sched r)) h in
      let same : served_by ep garbage self p.sched r ≡ q = cc in
      subst (λ x. Conserves p x (lost_between p.events x.events e.index)) same
        (served_by-Conserves p r.0 r.1 e g e1)

  serve_events-Conserves :
      (p q : Polling ep garbage) (es : List (Polled IoEvent))
      → ((i : ℕ) → garbage i ≡ no_bits)
      → serve_events ep garbage self p es ≡ ok q
      → Conserves p q (lost_over ep garbage self p es)
  unfolding serve_events lost_over
  serve_events-Conserves p q [] g h =
      let same : p ≡ q = cc in
      subst (λ x. Conserves p x []) same
        (record {
          queued = sym (append-nil p.sched.tasks);
          fewer_events = omega arith;
          still_mirrors = λ v. v;
          one_count = λ e. e;
        })
  serve_events-Conserves p q (tickled ∷ es) g h =
      let c = serve_events-Conserves (record p { sched = record p.sched { pipe = 0 } }) q es g h in
      record {
        queued = c.queued;
        fewer_events = c.fewer_events;
        still_mirrors = c.still_mirrors;
        one_count = c.one_count;
      }
  serve_events-Conserves p q (io e ∷ es) g h =
      let (p', e1, k) =
        >>=-returns (serve_event ep garbage self p e)
          (λ (p' : Polling ep garbage). serve_events ep garbage self p' es) h in
      let a = serve_event-Conserves p p' e g e1 in
      let b = serve_events-Conserves p' q es g k in
      let lost : Outcome (Polling ep garbage) → List (ℕ × Task) = λ o. elim o [
        | abort ↦ []
        | undefined ↦ []
        | ok x ↦ lost_between p.events x.events e.index ++ lost_over ep garbage self x es
      ] in
      subst (λ o. Conserves p q (lost o)) (sym e1)
        (Conserves-trans p p' q (lost_between p.events p'.events e.index)
          (lost_over ep garbage self p' es) a b)

  -- Let new contexts hold no events, and let the contexts, the kernel, the descriptor of the tickle pipe
  -- apart, and m_pending_count, which both parts of the object see, agree before the loop over the
  -- events. Where the loop ends, the queue has behind its old tasks exactly those that the contexts
  -- hold, for this scheduler, for the events that they lose in the loop, in the order in which they lose
  -- them; as many tasks are sent, to all schedulers, as the contexts have events less; and all agree
  -- again.
  pub serve_events_lem :
      (p q : Polling ep garbage) (es : List (Polled IoEvent))
      → ((i : ℕ) → garbage i ≡ no_bits)
      → Mirrors ep tickle p.events
      → p.sched.pending_count ≡ p.events.pending_count
      → serve_events ep garbage self p es ≡ ok q
      → (q.sched.tasks ≡ p.sched.tasks ++ own self (lost_over ep garbage self p es))
        × (total q.events.contexts + length (lost_over ep garbage self p es)
            ≡ total p.events.contexts)
        × Mirrors ep tickle q.events
        × (q.sched.pending_count ≡ q.events.pending_count)
  serve_events_lem p q es g v same h =
      let c = serve_events-Conserves p q es g h in
      (c.queued, c.fewer_events, c.still_mirrors v, c.one_count same)
