-- ===== src/Timer/Order.antt =====
-- The order of the set of timers, and what insert and erase do to it.
use eva.Base.{
  ℕ, ◌≡◌, refl, true, false, not, ◌&&◌, ◌||◌, List, [], ◌∷◌, some, none, Option, ◌==◌, update, mem,
  arith,
}
use eva.Timer.{Timer, cmp, insert, erase}

-- Every element of the list comes after the pointer p.
abbrev pub AllAfter : (ℕ → Timer) → ℕ → List ℕ → Type 0
AllAfter h p [] = Unit {0}
AllAfter h p (q ∷ qs) = (cmp h (some p) (some q) ≡ true) × AllAfter h p qs

-- The set holds no two equivalent timers and lists them in its order.
abbrev pub IsSorted : (ℕ → Timer) → List ℕ → Type 0
IsSorted h [] = Unit {0}
IsSorted h (p ∷ ps) = AllAfter h p ps × IsSorted h ps

-- The order is irreflexive and transitive, and two pointers are equivalent only if they are one.
pub cmp_irrefl : (h : ℕ → Timer) (a : Option ℕ) → cmp h a a ≡ false
unfolding cmp
cmp_irrefl h none = refl
cmp_irrefl h (some a) = ground arith

pub cmp_trans :
    (h : ℕ → Timer) (a b c : Option ℕ) → cmp h a b ≡ true → cmp h b c ≡ true → cmp h a c ≡ true
unfolding cmp
cmp_trans h none b none p q = ground arith
cmp_trans h none b (some c) p q = refl
cmp_trans h (some a) none c p q = ground arith
cmp_trans h (some a) (some b) none p q = ground arith
cmp_trans h (some a) (some b) (some c) p q = ground arith

pub cmp_total :
    (h : ℕ → Timer) (a b : ℕ)
    → cmp h (some a) (some b) ≡ false
    → cmp h (some b) (some a) ≡ false
    → a ≡ b
unfolding cmp
cmp_total h a b p q = ground arith

pub cmp_asym :
    (h : ℕ → Timer) (a b : ℕ) → cmp h (some a) (some b) ≡ true → cmp h (some b) (some a) ≡ false
unfolding cmp
cmp_asym h a b p = ground arith

pub AllAfter-mono :
    (h : ℕ → Timer) (p q : ℕ) (ts : List ℕ)
    → cmp h (some p) (some q) ≡ true
    → AllAfter h q ts
    → AllAfter h p ts
AllAfter-mono h p q [] e a = tt
AllAfter-mono h p q (t ∷ ts) e a =
    (cmp_trans h (some p) (some q) (some t) e a.0, AllAfter-mono h p q ts e a.1)

pub mem-insert :
    (h : ℕ → Timer) (p q : ℕ) (ts : List ℕ) → mem q (insert h p ts) ≡ (q == p || mem q ts)
unfolding insert
mem-insert h p q [] = refl
mem-insert h p q (t ∷ ts) = ground (arith, mem-insert h p q ts, cmp_total h p t)

AllAfter-insert :
    (h : ℕ → Timer) (p q : ℕ) (ts : List ℕ)
    → cmp h (some q) (some p) ≡ true
    → AllAfter h q ts
    → AllAfter h q (insert h p ts)
unfolding insert
AllAfter-insert h p q [] e a = (e, tt)
AllAfter-insert h p q (t ∷ ts) e a = ground (arith, AllAfter-insert h p q ts e a.1)

pub insert-IsSorted :
    (h : ℕ → Timer) (p : ℕ) (ts : List ℕ) → IsSorted h ts → IsSorted h (insert h p ts)
unfolding insert
insert-IsSorted h p [] s = (tt, tt)
insert-IsSorted h p (t ∷ ts) s =
    ground (arith, insert-IsSorted h p ts s.1, AllAfter-mono h p t ts, AllAfter-insert h p t ts)

pub mem-AllAfter :
    (h : ℕ → Timer) (p q : ℕ) (ts : List ℕ)
    → AllAfter h p ts
    → mem q ts ≡ true
    → cmp h (some p) (some q) ≡ true
mem-AllAfter h p q [] a m = ground arith
mem-AllAfter h p q (t ∷ ts) a m = ground (arith, mem-AllAfter h p q ts a.1)

-- Erasing finds an element exactly if it is there, and takes away no other.
pub erase_hit : (h : ℕ → Timer) (p : ℕ) (ts : List ℕ) → IsSorted h ts → (erase h p ts).1 ≡ mem p ts
unfolding erase
erase_hit h p [] s = refl
erase_hit h p (t ∷ ts) s = ground (
  arith,
  erase_hit h p ts s.1,
  cmp_total h p t,
  cmp_asym h p t,
  cmp_asym h t p,
  mem-AllAfter h t p ts s.0,
  cmp_irrefl h (some p),
)

pub mem-erase :
    (h : ℕ → Timer) (p q : ℕ) (ts : List ℕ)
    → IsSorted h ts
    → mem q (erase h p ts).0 ≡ (mem q ts && not (q == p))
unfolding erase
mem-erase h p q [] s = refl
mem-erase h p q (t ∷ ts) s = ground (
  arith,
  mem-erase h p q ts s.1,
  cmp_total h p t,
  cmp_asym h p t,
  cmp_irrefl h (some p),
  mem-AllAfter h t p ts s.0,
)

AllAfter-erase :
    (h : ℕ → Timer) (p q : ℕ) (ts : List ℕ) → AllAfter h q ts → AllAfter h q (erase h p ts).0
unfolding erase
AllAfter-erase h p q [] a = tt
AllAfter-erase h p q (t ∷ ts) a = ground (arith, AllAfter-erase h p q ts a.1)

pub erase-IsSorted :
    (h : ℕ → Timer) (p : ℕ) (ts : List ℕ) → IsSorted h ts → IsSorted h (erase h p ts).0
unfolding erase
erase-IsSorted h p [] s = tt
erase-IsSorted h p (t ∷ ts) s =
    ground (arith, erase-IsSorted h p ts s.1, AllAfter-erase h p t ts s.0)

-- A timer outside the set may be written.
pub AllAfter-update :
    (h : ℕ → Timer) (p q : ℕ) (v : Timer) (ts : List ℕ)
    → mem p ts ≡ false
    → (p == q) ≡ false
    → AllAfter h q ts
    → AllAfter (update h p v) q ts
unfolding cmp
AllAfter-update h p q v [] m e a = tt
AllAfter-update h p q v (t ∷ ts) m e a =
    (ground arith, AllAfter-update h p q v ts (ground arith) e a.1)

pub update-IsSorted :
    (h : ℕ → Timer) (p : ℕ) (v : Timer) (ts : List ℕ)
    → mem p ts ≡ false
    → IsSorted h ts
    → IsSorted (update h p v) ts
update-IsSorted h p v [] m s = tt
update-IsSorted h p v (t ∷ ts) m s = (
  AllAfter-update h p t v ts (ground arith) (ground arith) s.0,
  update-IsSorted h p v ts (ground arith) s.1,
)
