-- ===== src/FdManager/Gets/Doubled.antt =====
-- Two threads that get the same descriptor.
use eva.Base.{
  ap, subst, if◌then◌else◌, ℕ, ◌≤◌, ◌≡◌, ◌≢◌, false, none, some, length, update, arith, ◌==◌,
  Bool-cases, inl, inr,
}
use eva.FdManager.{FdInfo, FdManager}
use eva.FdManager.Lookup.{find, create_lem}
use eva.FdManager.Gets.{
  Getting, outside, missing, holding, look, Gets, IsUnused, Step, looks, creates, Steps, here,
  further,
}

-- An address stays unused where a thread moves on without it.
pub update-IsUnused :
    (s : Gets) (i p : ℕ) (l : Getting)
    → IsUnused s p
    → ((n : ℕ) → l ≢ holding n p)
    → IsUnused (record s { at = update s.at i l }) p
update-IsUnused s i p l u other = record {
  not_managed = u.not_managed;
  not_held = λ k n e. elim (Bool-cases (i == k)) [
    | inl same ↦ other n (rw same at e)
    | inr apart ↦ u.not_held k n (rw apart at e)
  ];
}

-- And where another address is entered in the manager.
manager-IsUnused :
    (s : Gets) (m : FdManager) (n p q : ℕ)
    → (p == q) ≡ false
    → ((k : ℕ) → find m k ≡ (if n == k then some p else find s.manager k))
    → IsUnused s q
    → IsUnused (record s { manager = m }) q
manager-IsUnused s m n p q apart entered u = record {
  not_managed = λ k e. ground (arith, entered k, u.not_managed k);
  not_held = u.not_held;
}

-- A look that finds no object.
pub looks_missing :
    (info : FdInfo) (s : Gets) (i n : ℕ)
    → s.at i ≡ outside
    → find s.manager n ≡ none
    → Step info s (record s { at = update s.at i (missing n) })
unfolding look
looks_missing info s i n a gone =
    subst (λ l. Step info s (record s { at = update s.at i l })) (ap (look n) gone) (looks i n a)

-- For a descriptor that the manager has no object for, the steps of two threads in get(fd, true) may
-- give each of them an object of its own; the manager then has the second one, so that what the
-- first thread sets in its object is seen by no later get.
pub doubled_lem :
    (info : FdInfo) (s : Gets) (i j n p q : ℕ)
    → (i == j) ≡ false
    → (p == q) ≡ false
    → s.at i ≡ outside
    → s.at j ≡ outside
    → 64 ≤ length s.manager.datas
    → find s.manager n ≡ none
    → IsUnused s p
    → IsUnused s q
    → (t : Gets) × Steps info s t
      × (t.at i ≡ holding n p)
      × (t.at j ≡ holding n q)
      × (find t.manager n ≡ some q)
doubled_lem info s i j n p q ij pq ai aj long gone up uq =
    let (m1, c1, f1, h1, l1) = create_lem info s.manager n p long in
    let (m2, c2, f2, h2, l2) = create_lem info m1 n q l1 in
    let s1 : Gets = record s { at = update s.at i (missing n) } in
    let s2 : Gets = record s1 { at = update s1.at j (missing n) } in
    let s3 : Gets = record { manager = m1; at = update s2.at i (holding n p) } in
    let s4 : Gets = record { manager = m2; at = update s3.at j (holding n q) } in
    let unused : (r : ℕ) → IsUnused s r → IsUnused s2 r = λ r u.
      update-IsUnused s1 j r (missing n) (update-IsUnused s i r (missing n) u (λ k e. cc))
        (λ k e. cc) in
    (
      s4,
      further
          (further
            (further (further here (looks_missing info s i n ai gone))
              (looks_missing info s1 j n (ground arith) gone))
            (creates i n p m1 (ground arith) (unused p up) c1))
          (creates j n q m2 (ground arith)
            (update-IsUnused (record s2 { manager = m1 }) i q (holding n p)
              (manager-IsUnused s2 m1 n p q pq f1 (unused q uq)) (λ k e. ground arith))
            c2),
      ground arith,
      ground arith,
      ground (arith, f2 n),
    )
