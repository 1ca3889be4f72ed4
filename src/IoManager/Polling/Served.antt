-- ===== src/IoManager/Polling/Served.antt =====
-- What one event of a descriptor sends to the schedulers.
use eva.Base.{
  length-append, Option, none, some, ◌>>=◌, subst, Bool-cases, inl, inr, not, ◌&&◌, ◌||◌,
  >>=-returns, dec64, sym, ◌∙◌, ap, Outcome, ℕ, ◌+◌, ◌≡◌, Bool, true, false, List, [], ◌∷◌, ◌++◌,
  length, ok, arith, minus_one, if◌then◌else◌, refl,
}
use mathlib.Core.List.{append_assoc, append-nil}
use eva.Fiber.{deref}
use eva.Scheduler.{Task, fiber_task, func_task}
use eva.IoManager.{
  op_leaving, schedule_context, task_of, has, minus, Mask, Event, no_event, read, write,
  EventContext, FdContext, Epoll, Slot, schedule_slot, fire, fire_if, triggered_by, left_after,
}
use eva.IoManager.Slots.{bits}

-- The scheduler and the task that an event context holds.
abbrev pub asked : EventContext → List (ℕ × Task)
asked x = elim x.scheduler [
  | none ↦ []
  | some target ↦ elim x.func [
    | some f ↦ (target, func_task minus_one f) ∷ []
    | none ↦ elim x.fiber [ some f ↦ (target, fiber_task f minus_one) ∷ [] | none ↦ [] ]
  ]
]

abbrev asked_at : FdContext → Event → List (ℕ × Task)
asked_at c no_event = []
asked_at c read = asked c.reader
asked_at c write = asked c.writer

-- What the contexts of the events hold that a descriptor had in c and has no more in c'.
abbrev pub lost_tasks : FdContext → FdContext → List (ℕ × Task)
lost_tasks c c' =
    (if c.events.rd && not c'.events.rd then asked c.reader else [])
    ++ (if c.events.wr && not c'.events.wr then asked c.writer else [])

task_of-asked :
    (x : EventContext) (tk : Task) (target : ℕ)
    → task_of x ≡ ok tk
    → deref x.scheduler ≡ ok target
    → asked x ≡ (target, tk) ∷ []
task_of-asked x tk target h k = ground arith

kept : (b : Bool) (x : List (ℕ × Task)) → (if b && not b then x else []) ≡ []
kept true x = refl
kept false x = refl

both_lost :
    (c : FdContext) (b d : Bool)
    → (b ≡ true → c.events.rd ≡ true)
    → (d ≡ true → c.events.wr ≡ true)
    → let c1 : FdContext = if b then record c { events = minus c.events read } else c in
      let c2 : FdContext = if d then record c1 { events = minus c1.events write } else c1 in
      (if b then asked c.reader else []) ++ (if d then asked c.writer else []) ≡ lost_tasks c c2
both_lost c true true h k = rw (h refl, k refl) refl
both_lost c true false h k = rw (h refl, kept c.events.wr (asked c.writer)) refl
both_lost c false true h k = rw (k refl, kept c.events.rd (asked c.reader)) refl
both_lost c false false h k =
    rw (kept c.events.rd (asked c.reader), kept c.events.wr (asked c.writer)) refl

module _ (ep : Epoll) where
  -- As many tasks are sent as the context has events less.
  pub record Sends (s t : Slot ep) (new : List (ℕ × Task)) : Type 0 where
    pub sent_new : t.sent ≡ s.sent ++ new
    pub fewer : bits t.ctx.events + length new ≡ bits s.ctx.events

  -- Where b says so, the event e and its task are gone from s to t.
  record Fires (b : Bool) (s t : Slot ep) (e : Event) (new : List (ℕ × Task)) : Type 0 where
    sends : Sends s t new
    one : new ≡ (if b then asked_at s.ctx e else [])
    had : b ≡ true → has s.ctx.events e ≡ true
    left : t.ctx ≡ (if b then record s.ctx { events = minus s.ctx.events e } else s.ctx)

  schedule_context-asked :
      (c : FdContext) (e : Event) (got : FdContext × ℕ × Task)
      → schedule_context c e ≡ ok got
      → (has c.events e ≡ true)
        × (asked_at c e ≡ (got.1, got.2) ∷ [])
        × (got.0 ≡ record c { events = minus c.events e })
  unfolding schedule_context
  schedule_context-asked c no_event got h = absurd (ground arith)
  schedule_context-asked c read got h = (ground arith, ground arith, ground arith)
  schedule_context-asked c write got h = (ground arith, ground arith, ground arith)

  fire-Fires :
      (s t : Slot ep) (e : Event)
      → fire ep s e ≡ ok t
      → (new : List (ℕ × Task)) × Fires true s t e new
  unfolding fire
  fire-Fires s t e h =
      let (got, e1, e2) =
        >>=-returns (schedule_context s.ctx e)
          (λ (r : FdContext × ℕ × Task). ok (record s {
            ctx = r.0;
            pending_count = dec64 s.pending_count;
            sent = s.sent ++ ((r.1, r.2) ∷ []);
          }))
          h in
      let (had, one, left) = schedule_context-asked s.ctx e got e1 in
      (
        (got.1, got.2) ∷ [],
        record {
          sends = record { sent_new = ground arith; fewer = ground arith };
          one = sym one;
          had = λ _. had;
          left = ground arith;
        },
      )

  fire_if-Fires :
      (b : Bool) (s t : Slot ep) (e : Event)
      → fire_if ep b s e ≡ ok t
      → (new : List (ℕ × Task)) × Fires b s t e new
  unfolding fire_if
  fire_if-Fires false s t e h = (
    [],
    record {
      sends = record { sent_new = ground (arith, append-nil s.sent); fewer = ground arith };
      one = refl;
      had = λ x. absurd (ground arith);
      left = ground arith;
    },
  )
  fire_if-Fires true s t e h = fire-Fires s t e h

  Sends-none : (s t : Slot ep) → s ≡ t → Sends s t []
  Sends-none s t e = rw (sym e) (record { sent_new = sym (append-nil s.sent); fewer = omega arith })

  Sends-trans :
      (s t u : Slot ep) (new more : List (ℕ × Task))
      → Sends s t new
      → Sends t u more
      → Sends s u (new ++ more)
  Sends-trans s t u new more a b = record {
    sent_new = b.sent_new ∙ ap (λ l. l ++ more) a.sent_new ∙ append_assoc s.sent new more;
    fewer = omega (arith, a.fewer, b.fewer, length-append new more);
  }

  -- The end of scheduleEvent, and its second half.
  abbrev with_true : Slot ep → Outcome (Slot ep × Bool)
  with_true s = ok (s, true)

  abbrev fire_writer : Mask → Slot ep → Outcome (Slot ep × Bool)
  fire_writer triggered s' = fire_if ep triggered.wr s' write >>= with_true

  abbrev after_ctl : Slot ep → Mask → Option ep.Kernel → Outcome (Slot ep × Bool)
  after_ctl s triggered o = elim o [
    | none ↦ ok (s, false)
    | some k ↦ fire_if ep triggered.rd (record s { kernel = k }) read >>= fire_writer triggered
  ]

  -- The tasks sent are those that the contexts of the lost events hold.
  pub record SendsLost (s t : Slot ep) (new : List (ℕ × Task)) : Type 0 where
    pub sends : Sends s t new
    pub exact : new ≡ lost_tasks s.ctx t.ctx

  SendsLost-none : (s t : Slot ep) → s ≡ t → SendsLost s t []
  SendsLost-none s t e = record {
    sends = Sends-none s t e;
    exact = rw (sym e) (
        sym (
          rw (kept s.ctx.events.rd (asked s.ctx.reader), kept s.ctx.events.wr (asked s.ctx.writer))
            refl));
  }

  Fires-exact :
      (s s' t : Slot ep) (b d : Bool) (new more : List (ℕ × Task))
      → Fires b s s' read new
      → Fires d s' t write more
      → new ++ more ≡ lost_tasks s.ctx t.ctx
  Fires-exact s s' t b d new more a c =
      let two : t.ctx ≡ (
          let c1 : FdContext =
            if b then record s.ctx { events = minus s.ctx.events read } else s.ctx in
          if d then record c1 { events = minus c1.events write } else c1) =
        c.left
        ∙ ap (λ (x : FdContext). if d then record x { events = minus x.events write } else x)
            a.left in
      let same_writer : s'.ctx.writer ≡ s.ctx.writer = ground (arith, a.left) in
      let same_wr : s'.ctx.events.wr ≡ s.ctx.events.wr = ground (arith, a.left) in
      rw (two, a.one, c.one, same_writer) (both_lost s.ctx b d a.had (λ x. sym same_wr ∙ c.had x))

  fire_both-SendsLost :
      (s t : Slot ep) (triggered : Mask) (b : Bool)
      → (fire_if ep triggered.rd s read >>= fire_writer triggered) ≡ ok (t, b)
      → (new : List (ℕ × Task)) × SendsLost s t new
  fire_both-SendsLost s t triggered b h =
      let (s', e1, k) = >>=-returns (fire_if ep triggered.rd s read) (fire_writer triggered) h in
      let (s'', e2, r) = >>=-returns (fire_if ep triggered.wr s' write) with_true k in
      let last : s'' ≡ t = ground arith in
      let (new, a) = fire_if-Fires triggered.rd s s' read e1 in
      let (more, c) = fire_if-Fires triggered.wr s' s'' write e2 in
      (
        new ++ more,
        subst (λ (u : Slot ep). SendsLost s u (new ++ more)) last
            (record {
              sends = Sends-trans s s' s'' new more a.sends c.sends;
              exact = Fires-exact s s' s'' triggered.rd triggered.wr new more a c;
            }),
      )

  after_ctl-SendsLost :
      (s t : Slot ep) (triggered : Mask) (b : Bool) (o : Option ep.Kernel)
      → after_ctl s triggered o ≡ ok (t, b)
      → (new : List (ℕ × Task)) × SendsLost s t new
  after_ctl-SendsLost s t triggered b none h = ([], SendsLost-none s t (ground arith))
  after_ctl-SendsLost s t triggered b (some k) h =
      let (new, a) = fire_both-SendsLost (record s { kernel = k }) t triggered b h in
      (
        new,
        record {
          sends = record { sent_new = a.sends.sent_new; fewer = a.sends.fewer };
          exact = a.exact;
        },
      )

  -- What an event sends: the task of each event of the context that it triggers.
  pub schedule_slot-SendsLost :
      (s t : Slot ep) (got : Mask) (failing b : Bool)
      → schedule_slot ep s got failing ≡ ok (t, b)
      → (new : List (ℕ × Task)) × SendsLost s t new
  unfolding schedule_slot
  schedule_slot-SendsLost s t got failing b h =
      let ev = s.ctx.events in
      let triggered = triggered_by ev got failing in
      let left = left_after ev triggered in
      elim (Bool-cases (not (ev.rd && triggered.rd || ev.wr && triggered.wr))) [
        | inl e ↦ ([], SendsLost-none s t (ground arith))
        | inr e ↦
            after_ctl-SendsLost s t triggered b (ep.ctl (op_leaving left) s.ctx.fd left s.kernel)
              (rw e at h)
      ]
