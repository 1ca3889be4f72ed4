-- ===== src/FdManager/Gets/Held.antt =====
-- The objects that the threads get.
use eva.Base.{
  ℕ, ◌≤◌, ◌≡◌, sym, ◌∙◌, ap, subst, Option, none, some, length, update, arith, ◌==◌, Bool-cases,
  inl, inr, ok, if◌then◌else◌,
}
use eva.FdManager.{FdCtx, FdInfo, FdManager, new_fd_ctx, new_manager, create}
use eva.FdManager.Lookup.{find, create_lem, del_lem, find-new_manager}
use eva.FdManager.Gets.{
  outside, holding, look, Gets, IsUnused, Step, looks, creates, deletes, leaves, Steps, here,
  further,
}

-- The manager's objects and those that threads hold are for the descriptors that they are kept for.
record Inv (s : Gets) : Type 0 where
  long : 64 ≤ length s.manager.datas
  managed : (n q : ℕ) → find s.manager n ≡ some q → (s.manager.store q).fd ≡ n
  held : (i n q : ℕ) → s.at i ≡ holding n q → (s.manager.store q).fd ≡ n

new_fd_ctx-fd : (info : FdInfo) (n : ℕ) → (new_fd_ctx info n).0.fd ≡ n
unfolding new_fd_ctx
new_fd_ctx-fd info n = ground arith

look-holding : (n k q : ℕ) (o : Option ℕ) → look n o ≡ holding k q → (n ≡ k) × (o ≡ some q)
unfolding look
look-holding n k q none e = absurd (ground arith)
look-holding n k q (some p) e = (ground arith, ground arith)

created-Inv :
    (info : FdInfo) (s : Gets) (i n p : ℕ) (m : FdManager)
    → IsUnused s p
    → create info s.manager n p ≡ ok (m, some p)
    → Inv s
    → Inv (record { manager = m; at = update s.at i (holding n p) })
created-Inv info s i n p m u e v =
    let (m', c, f, h, l) = create_lem info s.manager n p v.long in
    let same : m' ≡ m = cc in
    let entered : (j : ℕ) → find m j ≡ (if n == j then some p else find s.manager j) =
      λ j. rw (sym same) (f j) in
    let store : m.store ≡ update s.manager.store p (new_fd_ctx info n).0 = rw (sym same) h in
    record {
      long = rw (sym same) l;
      managed = λ k q g.
          ground (arith, entered k, store, u.not_managed k, v.managed k q, new_fd_ctx-fd info n);
      held = λ j k q g. elim (Bool-cases (i == j)) [
        | inl e' ↦ ground (arith, store, new_fd_ctx-fd info n)
        | inr e' ↦ ground (arith, store, u.not_held j k, v.held j k q)
      ];
    }

Step-Inv : {info : FdInfo} {s t : Gets} → Step info s t → Inv s → Inv t
Step-Inv {info} {s} (looks i n a) v = record {
  long = v.long;
  managed = v.managed;
  held = λ j k q g. elim (Bool-cases (i == j)) [
    | inl e ↦
        let (same, there) = look-holding n k q (find s.manager n) (rw e at g) in
        v.managed n q there ∙ same
    | inr e ↦ v.held j k q (rw e at g)
  ];
}
Step-Inv {info} {s} (creates i n p m a u e) v = created-Inv info s i n p m u e v
Step-Inv {info} {s} (deletes n m e) v =
    let (m', c, f, h, l) = del_lem s.manager n in
    let same : m' ≡ m = cc in
    subst (λ x. Inv (record { manager = x; at = s.at })) same
      (record {
        long = subst (λ x. 64 ≤ x) (sym l) v.long;
        managed = λ k q g. ground (arith, f k, ap (λ x. x q) h, v.managed k q);
        held = λ j k q g. ground (arith, ap (λ x. x q) h, v.held j k q);
      })
Step-Inv {info} {s} (leaves i n p a) v = record {
  long = v.long;
  managed = v.managed;
  held = λ j k q g. elim (Bool-cases (i == j)) [
    | inl e ↦ absurd (ground arith)
    | inr e ↦ v.held j k q (rw e at g)
  ];
}

Steps-Inv : {info : FdInfo} {s t : Gets} → Inv s → Steps info s t → Inv t
Steps-Inv v here = v
Steps-Inv v (further r st) = Step-Inv st (Steps-Inv v r)

-- A new manager, with every thread outside of get.
abbrev pub begun : (ℕ → FdCtx) → Gets
begun h = record { manager = new_manager h; at = λ i. outside }

begun-Inv : (h : ℕ → FdCtx) → Inv (begun h)
begun-Inv h = record {
  long = omega (arith, (find-new_manager h 0).0);
  managed = λ n q e. absurd (ground (arith, find-new_manager h n));
  held = λ i n q e. cc;
}

-- In every interleaving of threads in get(fd, true) and del, from a new manager on: the object that a
-- thread gets is one that was made for its descriptor.
held_lem :
    (info : FdInfo) (h : ℕ → FdCtx) (s : Gets) (i n q : ℕ)
    → Steps info (begun h) s
    → s.at i ≡ holding n q
    → (s.manager.store q).fd ≡ n
held_lem info h s i n q r a = (Steps-Inv (begun-Inv h) r).held i n q a
