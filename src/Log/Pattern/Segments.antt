-- ===== src/Log/Pattern/Segments.antt =====
-- Patterns that are written from their parts, and what initItems reads in them.
use eva.Base.{
  ℕ, ◌≡◌, ◌≢◌, refl, ap, ◌∙◌, Bool, true, false, List, [], ◌∷◌, ◌++◌, map, Option, none, some, ◌==◌,
  Bytes, Bool-cases, inl, inr, ==→eq,
}
use eva.Log.{Item, literal}
use eva.Log.Pattern.{Parsed, read_fmt, at_key, on_char, formats, scan_from, push}
use eva.Log.Pattern.Fuel.{scan_from-cons}

-- A byte that stands for itself, `%k`, or `%k{fmt}`.
pub data Segment : Type 0 where
  byte : ℕ → Segment
  key : ℕ → Segment
  key_fmt : ℕ → Bytes → Segment

-- The pattern of segments, before a rest.
abbrev pub show : List Segment → Bytes → Bytes
show [] rest = rest
show (byte c ∷ gs) rest = c ∷ show gs rest
show (key k ∷ gs) rest = b'%' ∷ k ∷ show gs rest
show (key_fmt k fmt ∷ gs) rest = b'%' ∷ k ∷ b'{' ∷ (fmt ++ b'}' ∷ show gs rest)

abbrev pub made : Option (Bytes → Item) → ℕ → Bytes → Item
made none k fmt = literal (k ∷ [])
made (some make) k fmt = make fmt

abbrev pub item_of : Segment → Item
item_of (byte c) = literal (c ∷ [])
item_of (key k) = made (formats k) k []
item_of (key_fmt k fmt) = made (formats k) k fmt

abbrev pub starts_fmt : Bytes → Bool
starts_fmt [] = false
starts_fmt (c ∷ s) = c == b'{'

-- No `}` in a text.
abbrev pub NoBrace : Bytes → Type 0
NoBrace [] = Unit {0}
NoBrace (c ∷ s) = ((c == b'}') ≡ false) × NoBrace s

abbrev pub IsKey : ℕ → Type 0
IsKey k = formats k ≢ none

-- Segments that a pattern can be read back from: a byte is no `%`, a key is one of FORMATS, no `{`
-- follows a key without a format, and no `}` stands in a format.
abbrev pub IsReadable : List Segment → Bytes → Type 0
IsReadable [] rest = Unit {0}
IsReadable (byte c ∷ gs) rest = ((c == b'%') ≡ false) × IsReadable gs rest
IsReadable (key k ∷ gs) rest = IsKey k × (starts_fmt (show gs rest) ≡ false) × IsReadable gs rest
IsReadable (key_fmt k fmt ∷ gs) rest = IsKey k × NoBrace fmt × IsReadable gs rest

-- The items of segments, before what is read in the rest.
abbrev pub before : List Segment → Option Parsed → Option Parsed
before [] o = o
before (g ∷ gs) o = push (item_of g) (before gs o)

read_fmt_closed : (fmt s : Bytes) → NoBrace fmt → read_fmt (fmt ++ b'}' ∷ s) ≡ (fmt, s, true)
unfolding read_fmt
read_fmt_closed [] s h = refl
read_fmt_closed (c ∷ fmt) s h = rw h.0 (rw (read_fmt_closed fmt s h.1))

pub read_fmt_open : (fmt : Bytes) → NoBrace fmt → read_fmt fmt ≡ (fmt, [], false)
unfolding read_fmt
read_fmt_open [] h = refl
read_fmt_open (c ∷ fmt) h = rw h.0 (rw (read_fmt_open fmt h.1))

-- A key is not the percent sign.
key-percent : (k : ℕ) → IsKey k → (k == b'%') ≡ false
unfolding formats
key-percent k h = elim (Bool-cases (k == b'%')) [
  | inl e ↦ absurd (h (ap formats (==→eq k b'%' e)))
  | inr e ↦ e
]

pub scan-percent :
    (k : ℕ) (s : Bytes)
    → IsKey k
    → scan_from false (b'%' ∷ k ∷ s) ≡ at_key scan_from (formats k) k s
unfolding on_char
scan-percent k s h =
    scan_from-cons false b'%' (k ∷ s) ∙ scan_from-cons true k s ∙ rw (key-percent k h)

scan-byte :
    (c : ℕ) (s : Bytes)
    → (c == b'%') ≡ false
    → scan_from false (c ∷ s) ≡ push (literal (c ∷ [])) (scan_from false s)
unfolding on_char
scan-byte c s h = scan_from-cons false c s ∙ rw h

at_key-bare :
    (o : Option (Bytes → Item)) (k : ℕ) (s : Bytes)
    → o ≢ none
    → starts_fmt s ≡ false
    → at_key scan_from o k s ≡ push (made o k []) (scan_from false s)
unfolding at_key
at_key-bare none k s h n = absurd (h refl)
at_key-bare (some make) k [] h n = refl
at_key-bare (some make) k (c ∷ s) h n = rw n

at_key-fmt :
    (o : Option (Bytes → Item)) (k : ℕ) (fmt s : Bytes)
    → o ≢ none
    → NoBrace fmt
    → at_key scan_from o k (b'{' ∷ (fmt ++ b'}' ∷ s)) ≡ push (made o k fmt) (scan_from false s)
unfolding at_key
at_key-fmt none k fmt s h n = absurd (h refl)
at_key-fmt (some make) k fmt s h n = rw (read_fmt_closed fmt s n)

pub scan-show :
    (gs : List Segment) (rest : Bytes)
    → IsReadable gs rest
    → scan_from false (show gs rest) ≡ before gs (scan_from false rest)
scan-show [] rest h = refl
scan-show (byte c ∷ gs) rest h =
    scan-byte c (show gs rest) h.0 ∙ ap (push (literal (c ∷ []))) (scan-show gs rest h.1)
scan-show (key k ∷ gs) rest h =
    scan-percent k (show gs rest) h.0
    ∙ at_key-bare (formats k) k (show gs rest) h.0 h.1
    ∙ ap (push (made (formats k) k [])) (scan-show gs rest h.2)
scan-show (key_fmt k fmt ∷ gs) rest h =
    scan-percent k _ h.0
    ∙ at_key-fmt (formats k) k fmt (show gs rest) h.0 h.1
    ∙ ap (push (made (formats k) k fmt)) (scan-show gs rest h.2)

pub before-some :
    (gs : List Segment) (r : Parsed)
    → before gs (some r) ≡ some (record r { items = map item_of gs ++ r.items })
before-some [] r = refl
before-some (g ∷ gs) r = rw (before-some gs r)
