-- ===== src/IoManager/Slots.antt =====
-- What each operation does to one descriptor's context, to the kernel and to the count of pending
-- events.
use eva.Base.{
  ℕ, ◌+◌, ◌≡◌, ◌≢◌, Bool, true, ◌||◌, Option, none, some, if◌then◌else◌, is_some, u64, ok, arith,
}
use eva.IoManager.{
  Event, no_event, read, write, Mask, no_bits, is_set, plus, minus, EventContext, FdContext,
  ctl_del, Epoll, Caller, Slot, add_slot, del_slot, cancel_slot, cancel_all_slot, schedule_slot,
  op_adding, op_leaving, triggered_by, left_after,
}

-- The number of events in a mask.
abbrev pub bits : Mask → ℕ
bits m = (if m.rd then 1 else 0) + (if m.wr then 1 else 0)

-- What the kernel has registered for a descriptor with these events.
abbrev pub image : Mask → Option Mask
image m = if is_set m then some m else none

abbrev holds_any : EventContext → Bool
holds_any x = is_some x.scheduler || is_some x.fiber || is_some x.func

-- The context of the event holds a pointer or a function.
abbrev pub is_used : FdContext → Event → Bool
is_used c no_event = true
is_used c read = holds_any c.reader
is_used c write = holds_any c.writer

module _ (ep : Epoll) where
  open ep use {Kernel, ctl, registered, ctl_effect}

  -- From the slot s of the descriptor fd to the slot t.
  pub record Sound (fd : ℕ) (s t : Slot ep) : Type 0 where
    pub keeps_fd : t.ctx.fd ≡ s.ctx.fd
    pub counted :
        u64 (t.pending_count + bits s.ctx.events) ≡ u64 (s.pending_count + bits t.ctx.events)
    pub others : (g : ℕ) → g ≢ fd → registered t.kernel g ≡ registered s.kernel g
    pub mirrored :
        registered s.kernel fd ≡ image s.ctx.events → registered t.kernel fd ≡ image t.ctx.events
    pub still_used : (e : Event) → is_used s.ctx e ≡ true → is_used t.ctx e ≡ true

  module _ (fd : ℕ) (s t : Slot ep) where
    pub add_slot-Sound :
        (who : Caller) (e : Event) (func : Option ℕ)
        → add_slot ep who s fd e func ≡ ok t
        → Sound fd s t
    unfolding add_slot
    add_slot-Sound who e func h = record {
      keeps_fd = ground arith;
      counted = ground arith;
      others = λ g n.
          ground (
            arith,
            ctl_effect (op_adding s.ctx.events) fd (plus s.ctx.events e) s.kernel t.kernel g,
          );
      mirrored = ground (
        arith,
        ctl_effect (op_adding s.ctx.events) fd (plus s.ctx.events e) s.kernel t.kernel fd,
      );
      still_used = λ e'. ground arith;
    }

    pub del_slot-Sound : (e : Event) (b : Bool) → del_slot ep s fd e ≡ ok (t, b) → Sound fd s t
    unfolding del_slot
    del_slot-Sound e b h = record {
      keeps_fd = ground arith;
      counted = ground arith;
      others = λ g n. ground (
        arith,
        ctl_effect (op_leaving (minus s.ctx.events e)) fd (minus s.ctx.events e) s.kernel t.kernel
            g,
      );
      mirrored = ground (
        arith,
        ctl_effect (op_leaving (minus s.ctx.events e)) fd (minus s.ctx.events e) s.kernel t.kernel
            fd,
      );
      still_used = λ e'. ground arith;
    }

    pub cancel_slot-Sound :
        (e : Event) (b : Bool) → cancel_slot ep s fd e ≡ ok (t, b) → Sound fd s t
    unfolding cancel_slot
    cancel_slot-Sound e b h = record {
      keeps_fd = ground arith;
      counted = ground arith;
      others = λ g n. ground (
        arith,
        ctl_effect (op_leaving (minus s.ctx.events e)) fd (minus s.ctx.events e) s.kernel t.kernel
            g,
      );
      mirrored = ground (
        arith,
        ctl_effect (op_leaving (minus s.ctx.events e)) fd (minus s.ctx.events e) s.kernel t.kernel
            fd,
      );
      still_used = λ e'. ground arith;
    }

    pub cancel_all_slot-Sound : (b : Bool) → cancel_all_slot ep s fd ≡ ok (t, b) → Sound fd s t
    unfolding cancel_all_slot
    cancel_all_slot-Sound b h = record {
      keeps_fd = ground arith;
      counted = ground arith;
      others = λ g n. ground (arith, ctl_effect ctl_del fd no_bits s.kernel t.kernel g);
      mirrored = ground (arith, ctl_effect ctl_del fd no_bits s.kernel t.kernel fd);
      still_used = λ e'. ground arith;
    }

    pub schedule_slot-Sound :
        (got : Mask) (failing b : Bool)
        → s.ctx.fd ≡ fd
        → schedule_slot ep s got failing ≡ ok (t, b)
        → Sound fd s t
    unfolding schedule_slot
    schedule_slot-Sound got failing b f h =
        let triggered = triggered_by s.ctx.events got failing in
        let left = left_after s.ctx.events triggered in
        record {
          keeps_fd = ground arith;
          counted = ground arith;
          others =
              λ g n. ground (arith, ctl_effect (op_leaving left) s.ctx.fd left s.kernel t.kernel g);
          mirrored =
              ground (arith, ctl_effect (op_leaving left) s.ctx.fd left s.kernel t.kernel fd);
          still_used = λ e'. ground arith;
        }
