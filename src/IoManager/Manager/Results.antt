-- ===== src/IoManager/Manager/Results.antt =====
-- What a method that ends has run.
use eva.Base.{
  ℕ, ◌≡◌, refl, Bool, Option, none, some, get_elem?, arith, Outcome, ok, abort, undefined,
}
use eva.IoManager.{FdContext, Epoll, Slot, IoManager, Mask}
use eva.IoManager.Manager.{focus, put, write_back, on_context, at_slot, return_true}

write_back-ok :
    (ep : Epoll) (garbage : ℕ → Mask) (m m' : IoManager ep) (n : ℕ) (b : Bool)
    (o : Outcome (Slot ep × Bool))
    → write_back ep garbage m n o ≡ ok (m', b)
    → (t : Slot ep) × (o ≡ ok (t, b)) × (m' ≡ put ep garbage m n t)
write_back-ok ep garbage m m' n b abort h = absurd (ground arith)
write_back-ok ep garbage m m' n b undefined h = absurd (ground arith)
write_back-ok ep garbage m m' n b (ok (t, b')) h = (t, ground arith, ground arith)

on_context-ok :
    (ep : Epoll) (garbage : ℕ → Mask) (m m' : IoManager ep) (n : ℕ) (b : Bool)
    (f : Slot ep → Outcome (Slot ep × Bool)) (o : Option FdContext)
    → on_context ep garbage m n f o ≡ ok (m', b)
    → (c : FdContext) × (t : Slot ep) × (o ≡ some c)
      × (f (focus ep garbage m c) ≡ ok (t, b))
      × (m' ≡ put ep garbage m n t)
on_context-ok ep garbage m m' n b f none h = absurd (ground arith)
on_context-ok ep garbage m m' n b f (some c) h =
    let (t, r, eq) = write_back-ok ep garbage m m' n b (f (focus ep garbage m c)) h in
    (c, t, refl, r, eq)

-- An operation that ends has found the context, run on it, and written it back.
pub at_slot-ok :
    (ep : Epoll) (garbage : ℕ → Mask) (m m' : IoManager ep) (n : ℕ) (b : Bool)
    (f : Slot ep → Outcome (Slot ep × Bool))
    → at_slot ep garbage m n f ≡ ok (m', b)
    → (c : FdContext) × (t : Slot ep) × (get_elem? m.contexts n ≡ some c)
      × (f (focus ep garbage m c) ≡ ok (t, b))
      × (m' ≡ put ep garbage m n t)
at_slot-ok ep garbage m m' n b f h = on_context-ok ep garbage m m' n b f (get_elem? m.contexts n) h

pub return_true-ok :
    (ep : Epoll) (garbage : ℕ → Mask) (o : Outcome (Slot ep)) (t : Slot ep) (b : Bool)
    → return_true ep garbage o ≡ ok (t, b)
    → o ≡ ok t
return_true-ok ep garbage abort t b h = absurd (ground arith)
return_true-ok ep garbage undefined t b h = absurd (ground arith)
return_true-ok ep garbage (ok s) t b h = ground arith
