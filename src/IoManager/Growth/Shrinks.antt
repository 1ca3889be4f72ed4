-- ===== src/IoManager/Growth/Shrinks.antt =====
-- Two resizes that overtake one another.
use eva.Base.{
  refl, update, List, [], ◌∷◌, none, zero, suc, ℕ, ◌*◌, ◌/◌, ◌≤◌, ◌<◌, ◌≡◌, true, false, leb,
  length, get_elem?, arith, ◌==◌,
}
use eva.IoManager.Growth.{
  Table, grow, checked, found, out_of_range, outside, fetch, Growing, resize_and_fetch, just_fetch,
  checks, resizes, reads, Steps, here, further,
}
use eva.IoManager.Growth.Found.{length-grow, length-resize_pointers, get_elem?-some}

get_elem?-none : (ps : List ℕ) (j : ℕ) → length ps ≤ j → get_elem? ps j ≡ none
get_elem?-none [] j l = refl
get_elem?-none (p ∷ ps) zero l = absurd (omega arith)
get_elem?-none (p ∷ ps) (suc j) l = get_elem?-none ps j (omega arith)

-- Three threads i, j and k begin addEvent for descriptors a, b and a that are both outside a vector of
-- at least 32 elements, where the resize for b ends before a. Then the interleaving of their steps
-- may leave i with a context for a that the vector does not hold, so that delEvent, cancelEvent and
-- cancelAll of a return false, and k with a read outside the vector.
pub shrinks_lem :
    (s : Growing) (i j k a b : ℕ)
    → (i == j) ≡ false
    → (i == k) ≡ false
    → (j == k) ≡ false
    → s.at i ≡ outside
    → s.at j ≡ outside
    → s.at k ≡ outside
    → 32 ≤ length s.table.contexts
    → length s.table.contexts ≤ b
    → b * 3 / 2 ≤ a
    → (t : Growing) × (p : ℕ) × Steps s t
      × (t.at i ≡ found a p)
      × (leb (length t.table.contexts) a ≡ true)
      × (t.at k ≡ out_of_range a)
unfolding resize_and_fetch just_fetch grow fetch
shrinks_lem s i j k a b ij ik jk ai aj ak l lb la =
    let n = length s.table.contexts in
    let t1 : Table = grow (a * 3 / 2) s.table in
    let t2 : Table = grow (b * 3 / 2) t1 in
    let far : a < length t1.contexts = length-grow a s.table (omega arith) in
    let (p, e) = get_elem?-some t1.contexts a far in
    let near : length t2.contexts ≡ b * 3 / 2 =
      length-resize_pointers t1.fresh (b * 3 / 2) 0 t1.contexts in
    let s1 : Growing = record s { at = update s.at i (checked a (leb n a)) } in
    let s2 : Growing = record s1 { at = update s1.at j (checked b (leb n b)) } in
    let s3 = resize_and_fetch s2 i a in
    let s4 : Growing = record s3 {
      at = update s3.at k (checked a (leb (length s3.table.contexts) a));
    } in
    let s5 = resize_and_fetch s4 j b in
    let s6 = just_fetch s5 k a in
    (
      s6,
      p,
      further
          (further
            (further
              (further (further (further here (checks i a ai)) (checks j b (ground arith)))
                (resizes i a (ground arith)))
              (checks k a (ground arith)))
            (resizes j b (ground arith)))
          (reads k a (ground (arith, far))),
      ground (arith, e),
      ground (arith, near),
      ground (arith, get_elem?-none t2.contexts a, near),
    )
