-- ===== src/FdManager/Lookup.antt =====
-- The manager as a map from descriptors to objects.
use eva.Base.{
  ℕ, zero, suc, ◌*◌, ◌/◌, ◌≤◌, ◌<◌, ◌≡◌, refl, ap, true, false, List, [], ◌∷◌, Option, none, some,
  leb, if◌then◌else◌, length, length-set, get_elem?, set, update, pos, negsuc, ok, arith, ◌==◌,
  Bool-cases, inl, inr, ◌⊎◌,
}
use eva.FdManager.{
  FdCtx, new_manager, FdInfo, FdManager, new_fd_ctx, resize, create, found, get, del,
}

abbrev joined : Option (Option ℕ) → Option ℕ
joined none = none
joined (some p) = p

-- The object that the manager has for a descriptor.
abbrev pub find : FdManager → ℕ → Option ℕ
find m n = joined (get_elem? m.datas n)

length-resize : (n : ℕ) (ps : List (Option ℕ)) → length (resize n ps) ≡ n
unfolding resize
length-resize zero ps = refl
length-resize (suc n) [] = omega (arith, length-resize n [])
length-resize (suc n) (p ∷ ps) = omega (arith, length-resize n ps)

joined-resize :
    (n j : ℕ) (ps : List (Option ℕ))
    → length ps ≤ n
    → joined (get_elem? (resize n ps) j) ≡ joined (get_elem? ps j)
unfolding resize
joined-resize zero j [] l = refl
joined-resize zero j (p ∷ ps) l = absurd (omega arith)
joined-resize (suc n) zero [] l = refl
joined-resize (suc n) (suc j) [] l = joined-resize n j [] (omega arith)
joined-resize (suc n) zero (p ∷ ps) l = refl
joined-resize (suc n) (suc j) (p ∷ ps) l = joined-resize n j ps (omega arith)

joined-set :
    (ps : List (Option ℕ)) (i j : ℕ) (v : Option ℕ)
    → i < length ps
    → joined (get_elem? (set ps i v) j) ≡ (if i == j then v else joined (get_elem? ps j))
joined-set [] i j v l = absurd (omega arith)
joined-set (p ∷ ps) zero zero v l = ground arith
joined-set (p ∷ ps) zero (suc j) v l = ground arith
joined-set (p ∷ ps) (suc i) zero v l = ground arith
joined-set (p ∷ ps) (suc i) (suc j) v l = ground (arith, joined-set ps i j v)

-- The part of get under the write lock always returns, and the manager has the new object.
pub create_lem :
    (info : FdInfo) (m : FdManager) (n p : ℕ)
    → 64 ≤ length m.datas
    → (m' : FdManager) × (create info m n p ≡ ok (m', some p))
      × ((j : ℕ) → find m' j ≡ (if n == j then some p else find m j))
      × (m'.store ≡ update m.store p (new_fd_ctx info n).0)
      × (64 ≤ length m'.datas)
unfolding create
create_lem info m n p l =
    let ds = (if leb (length m.datas) n then resize (n * 3 / 2) m.datas else m.datas) in
    let size : n < length ds = ground (arith, length-resize (n * 3 / 2) m.datas) in
    (
      record { store = update m.store p (new_fd_ctx info n).0; datas = set ds n (some p) },
      ground (arith, length-resize (n * 3 / 2) m.datas),
      (λ j. ground (
        arith,
        length-resize (n * 3 / 2) m.datas,
        joined-set ds n j (some p) size,
        joined-resize (n * 3 / 2) j m.datas,
      )),
      refl,
      ground (arith, length-set ds n (some p), length-resize (n * 3 / 2) m.datas),
    )

-- What get(fd, true) does: it gives the object that there is, or makes one.
abbrev pub Gives : FdInfo → FdManager → ℕ → ℕ → FdManager → ℕ → Type 0
Gives info m n p m' q =
    ((find m n ≡ some q) × (m' ≡ m))
    ⊎ ((find m n ≡ none) × (q ≡ p) × (m'.store ≡ update m.store p (new_fd_ctx info n).0))

joined_beyond : (ps : List (Option ℕ)) (n : ℕ) → length ps ≤ n → joined (get_elem? ps n) ≡ none
joined_beyond [] n l = ground arith
joined_beyond (p ∷ ps) zero l = absurd (omega arith)
joined_beyond (p ∷ ps) (suc n) l = joined_beyond ps n (omega arith)

same :
    (m : FdManager) (n : ℕ) (o : Option ℕ)
    → find m n ≡ o
    → (j : ℕ) → find m j ≡ (if n == j then o else find m j)
same m n o e j = ground arith

made :
    (info : FdInfo) (m : FdManager) (n p : ℕ)
    → 64 ≤ length m.datas
    → find m n ≡ none
    → (m' : FdManager) × (q : ℕ) × (create info m n p ≡ ok (m', some q))
      × (64 ≤ length m'.datas)
      × ((j : ℕ) → find m' j ≡ (if n == j then some q else find m j))
      × Gives info m n p m' q
made info m n p l e =
    let (m', c, f, h, l') = create_lem info m n p l in (m', p, c, l', f, inr (e, refl, h))

unmade :
    (info : FdInfo) (m : FdManager) (n p : ℕ) (o : Option (Option ℕ))
    → found info m n false p o ≡ ok (m, joined o)
unfolding found
unmade info m n p none = refl
unmade info m n p (some none) = refl
unmade info m n p (some (some q)) = refl

-- The cases of the element of the vector.
found_lem :
    (info : FdInfo) (m : FdManager) (n p : ℕ) (o : Option (Option ℕ))
    → 64 ≤ length m.datas
    → get_elem? m.datas n ≡ o
    → (m' : FdManager) × (q : ℕ) × (found info m n true p o ≡ ok (m', some q))
      × (64 ≤ length m'.datas)
      × ((j : ℕ) → find m' j ≡ (if n == j then some q else find m j))
      × Gives info m n p m' q
unfolding found
found_lem info m n p none l e = made info m n p l (ap joined e)
found_lem info m n p (some none) l e = made info m n p l (ap joined e)
found_lem info m n p (some (some q)) l e =
    (m, q, refl, l, (λ j. same m n (some q) (ap joined e) j), inl (ap joined e, refl))

-- get(fd, true) on a vector of at least the constructor's 64 elements always returns. It gives the
-- object that the manager has for the descriptor and changes nothing; if there is none, it gives the
-- new object, initialised by FdCtx(fd). In both cases the manager has this object for the descriptor
-- afterwards, keeps what it had for every other one, and has at least 64 elements.
pub get_auto_create :
    (info : FdInfo) (m : FdManager) (n p : ℕ)
    → 64 ≤ length m.datas
    → (m' : FdManager) × (q : ℕ) × (get info m (pos n) true p ≡ ok (m', some q))
      × (64 ≤ length m'.datas)
      × ((j : ℕ) → find m' j ≡ (if n == j then some q else find m j))
      × Gives info m n p m' q
unfolding get
get_auto_create info m n p l = found_lem info m n p (get_elem? m.datas n) l refl

-- get(fd, false) never changes the manager: it gives the object that there is, or null, and for -1
-- null too.
pub get_no_create :
    (info : FdInfo) (m : FdManager) (n p : ℕ)
    → (get info m (pos n) false p ≡ ok (m, find m n))
      × (get info m (negsuc 0) false p ≡ ok (m, none))
unfolding get
get_no_create info m n p = (unmade info m n p (get_elem? m.datas n), refl)

-- del of a descriptor always returns, forgets the object of this descriptor and of no other, and
-- changes neither an object nor the length of the vector.
pub del_lem :
    (m : FdManager) (n : ℕ)
    → (m' : FdManager) × (del m (pos n) ≡ ok m')
      × ((j : ℕ) → find m' j ≡ (if n == j then none else find m j))
      × (m'.store ≡ m.store)
      × (length m'.datas ≡ length m.datas)
unfolding del
del_lem m n = elim (Bool-cases (leb (length m.datas) n)) [
  | inl e ↦ (m, ground arith, same m n none (joined_beyond m.datas n (ground arith)), refl, refl)
  | inr e ↦ (
    record m { datas = set m.datas n none },
    ground arith,
    (λ j. joined-set m.datas n j none (ground arith)),
    refl,
    length-set m.datas n none,
  )
]

-- A new manager has 64 elements and no object.
pub find-new_manager :
    (h : ℕ → FdCtx) (n : ℕ) → (length (new_manager h).datas ≡ 64) × (find (new_manager h) n ≡ none)
unfolding new_manager
find-new_manager h n = (length-resize 64 [], joined-resize 64 n [] (omega arith))
