-- ===== src/Log/Pattern/Meaning.antt =====
-- Every pattern is read: as segments up to its end, or to where the reading stops.
use eva.Base.{
  ℕ, zero, suc, ◌≤◌, ◌<◌, ◌≡◌, ◌≢◌, refl, sym, ap, ◌∙◌, Bool, true, false, List, [], ◌∷◌, ◌++◌, map,
  Option, none, some, ◌==◌, length, Bytes, arith, Bool-cases, inl, inr, ==→eq, length-append,
}
use eva.Log.{Item}
use eva.Log.Pattern.{
  Parsed, second_percent, open_brace, invalid_item, read_fmt, at_key, formats, scan, scan_from,
  init_items, nothing_more,
}
use eva.Log.Pattern.Fuel.{scan_from-cons}
use eva.Log.Pattern.Segments.{
  Segment, byte, key, key_fmt, show, made, item_of, starts_fmt, NoBrace, IsKey, IsReadable, before,
  read_fmt_open, scan-percent, scan-show, before-some,
}

-- Where the reading of a pattern stops: at its end, behind a percent sign at the end, at a second
-- percent sign, at a byte that is no key, or in a format that is not closed.
pub data Tail : Type 0 where
  done lone : Tail
  doubled : Bytes → Tail
  unknown : ℕ → Bytes → Tail
  unclosed : ℕ → Bytes → Tail

abbrev pub tail_text : Tail → Bytes
tail_text done = []
tail_text lone = b'%' ∷ []
tail_text (doubled s) = b'%' ∷ b'%' ∷ s
tail_text (unknown k s) = b'%' ∷ k ∷ s
tail_text (unclosed k fmt) = b'%' ∷ k ∷ b'{' ∷ fmt

abbrev pub IsTail : Tail → Type 0
IsTail done = Unit {0}
IsTail lone = Unit {0}
IsTail (doubled s) = Unit {0}
IsTail (unknown k s) = ((k == b'%') ≡ false) × (formats k ≡ none)
IsTail (unclosed k fmt) = IsKey k × NoBrace fmt

-- What the tail adds to the items, and the error that is reported.
abbrev pub tail_parsed : Tail → Parsed
tail_parsed done = nothing_more none
tail_parsed lone = nothing_more none
tail_parsed (doubled s) = nothing_more (some second_percent)
tail_parsed (unknown k s) = nothing_more (some (invalid_item k))
tail_parsed (unclosed k fmt) = record {
  items = made (formats k) k fmt ∷ [];
  error = some open_brace;
}

at_key-unclosed :
    (o : Option (Bytes → Item)) (k : ℕ) (fmt : Bytes)
    → o ≢ none
    → NoBrace fmt
    → at_key scan_from o k (b'{' ∷ fmt)
      ≡ some (record { items = made o k fmt ∷ []; error = some open_brace })
unfolding at_key
at_key-unclosed none k fmt h n = absurd (h refl)
at_key-unclosed (some make) k fmt h n = rw (read_fmt_open fmt n)

scan-tail : (t : Tail) → IsTail t → scan_from false (tail_text t) ≡ some (tail_parsed t)
unfolding scan
scan-tail done h = refl
scan-tail lone h = refl
scan-tail (doubled s) h = refl
scan-tail (unknown k s) h =
    scan_from-cons false b'%' (k ∷ s) ∙ scan_from-cons true k s ∙ rw h.0 (rw h.1)
scan-tail (unclosed k fmt) h =
    scan-percent k (b'{' ∷ fmt) h.0 ∙ at_key-unclosed (formats k) k fmt h.0 h.1

-- What initItems makes of segments before a tail: the items of the segments and of the tail, in this
-- order, and the tail's error.
pub init_items-show :
    (gs : List Segment) (t : Tail)
    → IsReadable gs (tail_text t)
    → IsTail t
    → init_items (show gs (tail_text t))
      ≡ some (record {
        items = map item_of gs ++ (tail_parsed t).items;
        error = (tail_parsed t).error;
      })
unfolding init_items
init_items-show gs t r h =
    scan-show gs (tail_text t) r ∙ ap (before gs) (scan-tail t h) ∙ before-some gs (tail_parsed t)

-- What the inner loop takes from a text.
abbrev Split : Bytes → Bytes × Bytes × Bool → Type 0
Split s (fmt, rest, true) = (s ≡ fmt ++ b'}' ∷ rest) × NoBrace fmt
Split s (fmt, rest, false) = (s ≡ fmt) × NoBrace fmt

Split-cons :
    (c : ℕ) (s : Bytes) (r : Bytes × Bytes × Bool)
    → (c == b'}') ≡ false
    → Split s r
    → Split (c ∷ s) (c ∷ r.0, r.1, r.2)
Split-cons c s (fmt, rest, true) n h = (ap (λ t. c ∷ t) h.0, (n, h.1))
Split-cons c s (fmt, rest, false) n h = (ap (λ t. c ∷ t) h.0, (n, h.1))

Split-read_fmt : (s : Bytes) → Split s (read_fmt s)
unfolding read_fmt
Split-read_fmt [] = (refl, tt)
Split-read_fmt (c ∷ s) = elim (Bool-cases (c == b'}')) [
  | inl e ↦ rw e (ap (λ d. d ∷ s) (==→eq c b'}' e), tt)
  | inr e ↦ rw e (Split-cons c s (read_fmt s) e (Split-read_fmt s))
]

-- A way to see a pattern as segments before a tail.
abbrev Reading : Bytes → Type 0
Reading p =
    (gs : List Segment) × (t : Tail) × (p ≡ show gs (tail_text t))
    × IsReadable gs (tail_text t)
    × IsTail t

read_byte : (c : ℕ) (s : Bytes) → (c == b'%') ≡ false → Reading s → Reading (c ∷ s)
read_byte c s n (gs, t, e, r, h) = (byte c ∷ gs, t, ap (λ u. c ∷ u) e, (n, r), h)

read_key : (k : ℕ) (s : Bytes) → IsKey k → starts_fmt s ≡ false → Reading s → Reading (b'%' ∷ k ∷ s)
read_key k s n f (gs, t, e, r, h) =
    (key k ∷ gs, t, ap (λ u. b'%' ∷ k ∷ u) e, (n, sym (ap starts_fmt e) ∙ f, r), h)

-- A key before a format, given what the inner loop takes.
read_key_fmt :
    (k : ℕ) (s : Bytes) (r : Bytes × Bytes × Bool)
    → IsKey k
    → Split s r
    → (r.2 ≡ true → Reading r.1)
    → Reading (b'%' ∷ k ∷ b'{' ∷ s)
read_key_fmt k s (fmt, rest, false) n h more =
    ([], unclosed k fmt, ap (λ u. b'%' ∷ k ∷ b'{' ∷ u) h.0, tt, (n, h.1))
read_key_fmt k s (fmt, rest, true) n h more =
    let (gs, t, e, rd, ht) = more refl in
    (
      key_fmt k fmt ∷ gs,
      t,
      ap (λ u. b'%' ∷ k ∷ b'{' ∷ u) (h.0 ∙ ap (λ u. fmt ++ b'}' ∷ u) e),
      (n, h.1, rd),
      ht,
    )

length-Split :
    (s : Bytes) (r : Bytes × Bytes × Bool) → Split s r → r.2 ≡ true → length r.1 ≤ length s
length-Split s (fmt, rest, true) h e = omega (arith, ap length h.0, length-append fmt (b'}' ∷ rest))
length-Split s (fmt, rest, false) h e = cc

ne_none : (o : Option (Bytes → Item)) (make : Bytes → Item) → o ≡ some make → o ≢ none
ne_none o make e n = cc

read_after :
    (k : ℕ) (s : Bytes)
    → IsKey k
    → ((u : Bytes) → length u ≤ length s → Reading u)
    → Reading (b'%' ∷ k ∷ s)
read_after k [] n ih = read_key k [] n refl (ih [] (omega arith))
read_after k (c ∷ s) n ih = elim (Bool-cases (c == b'{')) [
  | inl e ↦ rw (==→eq c b'{' e) (
      read_key_fmt k s (read_fmt s) n (Split-read_fmt s) (λ e'.
        ih (read_fmt s).1 (omega (arith, length-Split s (read_fmt s) (Split-read_fmt s) e'))))
  | inr e ↦ read_key k (c ∷ s) n e (ih (c ∷ s) (omega arith))
]

at_formats :
    (o : Option (Bytes → Item)) (k : ℕ) (s : Bytes)
    → formats k ≡ o
    → (k == b'%') ≡ false
    → ((u : Bytes) → length u ≤ length s → Reading u)
    → Reading (b'%' ∷ k ∷ s)
at_formats none k s e n ih = ([], unknown k s, refl, tt, (n, e))
at_formats (some make) k s e n ih = read_after k s (ne_none (formats k) make e) ih

read_percent : (s : Bytes) → ((u : Bytes) → length u < length s → Reading u) → Reading (b'%' ∷ s)
read_percent [] ih = ([], lone, refl, tt, tt)
read_percent (k ∷ s) ih = elim (Bool-cases (k == b'%')) [
  | inl e ↦ rw (==→eq k b'%' e) ([], doubled s, refl, tt, tt)
  | inr e ↦ at_formats (formats k) k s refl e (λ u l. ih u (omega arith))
]

read : (n : ℕ) (p : Bytes) → length p < n → Reading p
read zero p h = absurd (omega arith)
read (suc n) [] h = ([], done, refl, tt, tt)
read (suc n) (c ∷ s) h = elim (Bool-cases (c == b'%')) [
  | inl e ↦ rw (==→eq c b'%' e) (read_percent s (λ u l. read n u (omega arith)))
  | inr e ↦ read_byte c s e (read n s (omega arith))
]

-- Every pattern is readable segments before a tail, in the sense of IsReadable and IsTail, and
-- initItems gives the items of the segments and then the tail's, and reports the tail's error.
pub init_items_lem :
    (p : Bytes)
    → (gs : List Segment) × (t : Tail) × (p ≡ show gs (tail_text t))
      × IsReadable gs (tail_text t)
      × IsTail t
      × (init_items p
          ≡ some (record {
            items = map item_of gs ++ (tail_parsed t).items;
            error = (tail_parsed t).error;
          }))
init_items_lem p =
    let (gs, t, e, r, h) = read (suc (length p)) p (omega arith) in
    (gs, t, e, r, h, ap init_items e ∙ init_items-show gs t r h)
