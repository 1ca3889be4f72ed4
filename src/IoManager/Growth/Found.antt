-- ===== src/IoManager/Growth/Found.antt =====
-- The contexts that the threads find.
use eva.Base.{
  ◌||◌, ltb, leb, subst, ℕ, zero, suc, ◌+◌, ◌*◌, ◌/◌, ◌≤◌, ◌<◌, ◌≡◌, refl, Bool, true, false, List,
  [], ◌∷◌, Option, none, some, ◌==◌, length, get_elem?, arith, ◌⊎◌, inl, inr, update, Bool-cases,
}
use eva.IoManager.Growth.{
  Table, resize_pointers, grow, new_table, Lookup, outside, checked, found, out_of_range, fetch,
  Growing, resize_and_fetch, just_fetch, Step, checks, resizes, reads, leaves, Steps, here, further,
  begun,
}

pub length-resize_pointers : (base n i : ℕ) (ps : List ℕ) → length (resize_pointers base n i ps) ≡ n
unfolding resize_pointers
length-resize_pointers base zero i ps = refl
length-resize_pointers base (suc n) i [] = omega (arith, length-resize_pointers base n (i + 1) [])
length-resize_pointers base (suc n) i (p ∷ ps) =
    omega (arith, length-resize_pointers base n (i + 1) ps)

-- Each pointer of the result is an old one, or new and behind these.
get_elem?-resize_pointers :
    (base n i j p : ℕ) (ps : List ℕ)
    → get_elem? (resize_pointers base n i ps) j ≡ some p
    → (get_elem? ps j ≡ some p) ⊎ (p ≡ base + (i + j))
unfolding resize_pointers
get_elem?-resize_pointers base zero i j p ps h = ground arith
get_elem?-resize_pointers base (suc n) i zero p [] h = inr (ground arith)
get_elem?-resize_pointers base (suc n) i (suc j) p [] h =
    ground (arith, get_elem?-resize_pointers base n (i + 1) j p [] h)
get_elem?-resize_pointers base (suc n) i zero p (q ∷ ps) h = inl h
get_elem?-resize_pointers base (suc n) i (suc j) p (q ∷ ps) h =
    ground (arith, get_elem?-resize_pointers base n (i + 1) j p ps h)

-- A pointer stays where it is, unless the vector ends before it.
get_elem?-resize_kept :
    (base n i j p : ℕ) (ps : List ℕ)
    → j < n
    → get_elem? ps j ≡ some p
    → get_elem? (resize_pointers base n i ps) j ≡ some p
unfolding resize_pointers
get_elem?-resize_kept base zero i j p ps l h = elim l [ ]
get_elem?-resize_kept base (suc n) i j p [] l h = ground arith
get_elem?-resize_kept base (suc n) i zero p (q ∷ ps) l h = h
get_elem?-resize_kept base (suc n) i (suc j) p (q ∷ ps) l h =
    get_elem?-resize_kept base n (i + 1) j p ps (omega arith) h

pub get_elem?-some : (ps : List ℕ) (j : ℕ) → j < length ps → (p : ℕ) × (get_elem? ps j ≡ some p)
get_elem?-some [] j l = elim l [ ]
get_elem?-some (p ∷ ps) zero l = (p, refl)
get_elem?-some (p ∷ ps) (suc j) l = get_elem?-some ps j (omega arith)

get_elem?-bound : (ps : List ℕ) (j p : ℕ) → get_elem? ps j ≡ some p → j < length ps
get_elem?-bound [] j p h = ground arith
get_elem?-bound (q ∷ ps) zero p h = omega arith
get_elem?-bound (q ∷ ps) (suc j) p h = omega (arith, get_elem?-bound ps j p h)

-- The pointer at index i is to the context of the descriptor i.
record IsOrdered (t : Table) : Type 0 where
  enough : 32 ≤ length t.contexts
  labelled : (j p : ℕ) → get_elem? t.contexts j ≡ some p → (t.fd_of p ≡ j) × (p < t.fresh)

grow-IsOrdered : (size : ℕ) (t : Table) → 32 ≤ size → IsOrdered t → IsOrdered (grow size t)
unfolding grow
grow-IsOrdered size t l v = record {
  enough = omega (arith, length-resize_pointers t.fresh size 0 t.contexts);
  labelled = λ j p h. elim (get_elem?-resize_pointers t.fresh size 0 j p t.contexts h) [
    | inl old ↦ ground (arith, v.labelled j p old)
    | inr new ↦ ground (
      arith,
      get_elem?-bound (resize_pointers t.fresh size 0 t.contexts) j p h,
      length-resize_pointers t.fresh size 0 t.contexts,
    )
  ];
}

new_table-IsOrdered : IsOrdered new_table
unfolding new_table grow
new_table-IsOrdered = record {
  enough = omega (arith, length-resize_pointers 0 32 0 []);
  labelled = λ j p h. elim (get_elem?-resize_pointers 0 32 0 j p [] h) [
    | inl old ↦ ground arith
    | inr new ↦
        ground (
          arith,
          get_elem?-bound (resize_pointers 0 32 0 []) j p h,
          length-resize_pointers 0 32 0 [],
        )
  ];
}

-- What each place of a thread promises about the table, and whether a resize has made it smaller.
abbrev Fits : Table → Bool → Lookup → Type 0
Fits t shrunk outside = Unit {0}
Fits t shrunk (checked fd true) = 32 ≤ fd
Fits t shrunk (checked fd false) = shrunk ≡ false → fd < length t.contexts
Fits t shrunk (found fd p) =
    (t.fd_of p ≡ fd) × (p < t.fresh) × (shrunk ≡ false → get_elem? t.contexts fd ≡ some p)
Fits t shrunk (out_of_range fd) = shrunk ≡ true

grow-Fits :
    (size : ℕ) (t : Table) (shrunk : Bool) (l : Lookup)
    → Fits t shrunk l
    → Fits (grow size t) (shrunk || ltb size (length t.contexts)) l
unfolding grow
grow-Fits size t shrunk outside f = tt
grow-Fits size t shrunk (checked fd true) f = f
grow-Fits size t shrunk (checked fd false) f =
    λ e. ground (arith, f, length-resize_pointers t.fresh size 0 t.contexts)
grow-Fits size t shrunk (found fd p) f = (
  ground (arith, f.0, f.1),
  omega (arith, f.1),
  λ e.
      get_elem?-resize_kept t.fresh size 0 fd p t.contexts
        (ground (arith, f.2, get_elem?-bound t.contexts fd p)) (f.2 (ground arith)),
)
grow-Fits size t shrunk (out_of_range fd) f = ground arith

fetch-Fits :
    (t : Table) (shrunk : Bool) (fd : ℕ) (o : Option ℕ)
    → IsOrdered t
    → get_elem? t.contexts fd ≡ o
    → (shrunk ≡ false → fd < length t.contexts)
    → Fits t shrunk (fetch fd o)
unfolding fetch
fetch-Fits t shrunk fd none v e inside = elim (Bool-cases shrunk) [
  | inl yes_shrunk ↦ yes_shrunk
  | inr not_shrunk ↦ absurd (ground (arith, get_elem?-some t.contexts fd (inside not_shrunk)))
]
fetch-Fits t shrunk fd (some p) v e inside = ((v.labelled fd p e).0, (v.labelled fd p e).1, λ h. e)

-- The invariant of the interleaving.
record Inv (s : Growing) : Type 0 where
  ordered : IsOrdered s.table
  fits : (i : ℕ) → Fits s.table s.shrunk (s.at i)

update-Fits :
    (t : Table) (shrunk : Bool) (at : ℕ → Lookup) (i : ℕ) (l : Lookup)
    → ((j : ℕ) → Fits t shrunk (at j))
    → Fits t shrunk l
    → (j : ℕ) → Fits t shrunk (update at i l j)
update-Fits t shrunk at i l all f j = elim (Bool-cases (i == j)) [
  | inl e ↦ rw e f
  | inr e ↦ rw e (all j)
]

check-Fits :
    (t : Table) (shrunk : Bool) (fd : ℕ)
    → IsOrdered t
    → Fits t shrunk (checked fd (leb (length t.contexts) fd))
check-Fits t shrunk fd v = elim (Bool-cases (leb (length t.contexts) fd)) [
  | inl e ↦ rw e (ground (arith, v.enough))
  | inr e ↦ rw e (λ h. ground arith)
]

-- The vector that addEvent resizes reaches beyond its descriptor.
pub length-grow : (fd : ℕ) (t : Table) → 32 ≤ fd → fd < length (grow (fd * 3 / 2) t).contexts
unfolding grow
length-grow fd t far = omega (arith, length-resize_pointers t.fresh (fd * 3 / 2) 0 t.contexts)

read-Inv : (s : Growing) (i fd : ℕ) → s.at i ≡ checked fd false → Inv s → Inv (just_fetch s i fd)
unfolding just_fetch
read-Inv s i fd a v =
    let f = subst (Fits s.table s.shrunk) a (v.fits i) in
    record {
      ordered = v.ordered;
      fits =
          update-Fits s.table s.shrunk s.at i (fetch fd (get_elem? s.table.contexts fd)) v.fits
            (fetch-Fits s.table s.shrunk fd (get_elem? s.table.contexts fd) v.ordered refl f);
    }

resized-Inv :
    (s : Growing) (i fd : ℕ) → s.at i ≡ checked fd true → Inv s → Inv (resize_and_fetch s i fd)
unfolding resize_and_fetch
resized-Inv s i fd a v =
    let far : 32 ≤ fd = subst (Fits s.table s.shrunk) a (v.fits i) in
    let o : IsOrdered (grow (fd * 3 / 2) s.table) =
      grow-IsOrdered (fd * 3 / 2) s.table (omega arith) v.ordered in
    record {
      ordered = o;
      fits =
          update-Fits (grow (fd * 3 / 2) s.table)
            (s.shrunk || ltb (fd * 3 / 2) (length s.table.contexts)) s.at i
            (fetch fd (get_elem? (grow (fd * 3 / 2) s.table).contexts fd))
            (λ j. grow-Fits (fd * 3 / 2) s.table s.shrunk (s.at j) (v.fits j))
            (fetch-Fits (grow (fd * 3 / 2) s.table)
              (s.shrunk || ltb (fd * 3 / 2) (length s.table.contexts)) fd
              (get_elem? (grow (fd * 3 / 2) s.table).contexts fd) o refl
              (λ e. length-grow fd s.table far));
    }

Step-Inv : {s t : Growing} → Step s t → Inv s → Inv t
Step-Inv {s} (checks i fd a) v = record {
  ordered = v.ordered;
  fits =
      update-Fits s.table s.shrunk s.at i (checked fd (leb (length s.table.contexts) fd)) v.fits
        (check-Fits s.table s.shrunk fd v.ordered);
}
Step-Inv {s} (resizes i fd a) v = resized-Inv s i fd a v
Step-Inv {s} (reads i fd a) v = read-Inv s i fd a v
Step-Inv {s} (leaves i fd p a) v = record {
  ordered = v.ordered;
  fits = update-Fits s.table s.shrunk s.at i outside v.fits tt;
}

Steps-Inv : {s t : Growing} → Inv s → Steps s t → Inv t
Steps-Inv v here = v
Steps-Inv v (further r st) = Step-Inv st (Steps-Inv v r)

begun-Inv : Inv begun
begun-Inv = record { ordered = new_table-IsOrdered; fits = λ i. tt }

-- The context of the descriptor asked for, which the vector holds for it if no resize has made the
-- vector smaller; and only then a read may be outside the vector.
abbrev pub IsRight : Growing → Lookup → Type 0
IsRight s outside = Unit {0}
IsRight s (checked fd need_resize) = Unit {0}
IsRight s (found fd p) =
    (s.table.fd_of p ≡ fd) × ((get_elem? s.table.contexts fd ≡ some p) ⊎ (s.shrunk ≡ true))
IsRight s (out_of_range fd) = s.shrunk ≡ true

Fits-IsRight : (s : Growing) (l : Lookup) → Fits s.table s.shrunk l → IsRight s l
Fits-IsRight s outside f = tt
Fits-IsRight s (checked fd need_resize) f = tt
Fits-IsRight s (found fd p) f =
    (f.0, elim (Bool-cases s.shrunk) [ inl e ↦ inr e | inr e ↦ inl (f.2 e) ])
Fits-IsRight s (out_of_range fd) f = f

-- In every interleaving of threads in addEvent, from the constructor's table on: the context that a
-- thread finds is the one of the descriptor that it asks for, and the vector holds it for this
-- descriptor, unless a resize has made the vector smaller; unless one has, no thread reads outside the
-- vector.
pub found_lem : (s : Growing) (i : ℕ) → Steps begun s → IsRight s (s.at i)
found_lem s i r = Fits-IsRight s (s.at i) ((Steps-Inv begun-Inv r).fits i)
