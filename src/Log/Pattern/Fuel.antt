-- ===== src/Log/Pattern/Fuel.antt =====
-- The loops of initItems end: each round of the outer loop takes a byte of the pattern at least.
use eva.Base.{
  ℕ, zero, suc, ◌≤◌, ◌<◌, ◌≡◌, refl, ap, ◌∙◌, Bool, true, false, [], ◌∷◌, Option, none, some, ◌==◌,
  length, Bytes, arith, Bool-cases, inl, inr, sym,
}
use eva.Log.{Item, literal}
use eva.Log.Pattern.{
  Parsed, Next, read_fmt, end_fmt, after_key, at_key, on_char, formats, scan, scan_from, init_items,
  push, nothing_more, second_percent,
}

length-read_fmt : (s : Bytes) → length (read_fmt s).1 ≤ length s
unfolding read_fmt
length-read_fmt [] = omega arith
length-read_fmt (c ∷ s) = ground (arith, length-read_fmt s)

-- Both calls return, with the same result.
abbrev Both : Option Parsed → Option Parsed → Type 0
Both o o' = (r : Parsed) × (o ≡ some r) × (o' ≡ some r)

push-Both : (i : Item) (o o' : Option Parsed) → Both o o' → Both (push i o) (push i o')
push-Both i o o' (r, h, h') = (record r { items = i ∷ r.items }, ap (push i) h, ap (push i) h')

-- Two ways to go on that return the same for the texts up to a length.
abbrev Agree : ℕ → Next → Next → Type 0
Agree n f g = (found : Bool) (s : Bytes) → length s ≤ n → Both (f found s) (g found s)

end_fmt-Agree :
    (n : ℕ) (f g : Next) (make : Bytes → Item) (r : Bytes × Bytes × Bool)
    → Agree n f g
    → length r.1 ≤ n
    → Both (end_fmt f make r) (end_fmt g make r)
unfolding end_fmt
end_fmt-Agree n f g make (fmt, rest, true) a h = push-Both (make fmt) _ _ (a false rest h)
end_fmt-Agree n f g make (fmt, rest, false) a h = (_, refl, refl)

after_key-Agree :
    (f g : Next) (make : Bytes → Item) (s : Bytes)
    → Agree (length s) f g
    → Both (after_key f make s) (after_key g make s)
unfolding after_key
after_key-Agree f g make [] a = push-Both (make []) _ _ (a false [] (omega arith))
after_key-Agree f g make (c ∷ s) a = elim (Bool-cases (c == b'{')) [
  | inl e ↦
      rw e
        (end_fmt-Agree (suc (length s)) f g make (read_fmt s) a (omega (arith, length-read_fmt s)))
  | inr e ↦ rw e (push-Both (make []) _ _ (a false (c ∷ s) (omega arith)))
]

at_key-Agree :
    (f g : Next) (made : Option (Bytes → Item)) (c : ℕ) (s : Bytes)
    → Agree (length s) f g
    → Both (at_key f made c s) (at_key g made c s)
unfolding at_key
at_key-Agree f g none c s a = (_, refl, refl)
at_key-Agree f g (some make) c s a = after_key-Agree f g make s a

on_char-Agree :
    (f g : Next) (found : Bool) (c : ℕ) (s : Bytes)
    → Agree (length s) f g
    → Both (on_char f found c s) (on_char g found c s)
unfolding on_char
on_char-Agree f g true c s a = elim (Bool-cases (c == b'%')) [
  | inl e ↦ rw e (nothing_more (some second_percent), refl, refl)
  | inr e ↦ rw e (at_key-Agree f g (formats c) c s a)
]
on_char-Agree f g false c s a = elim (Bool-cases (c == b'%')) [
  | inl e ↦ rw e (a true s (omega arith))
  | inr e ↦ rw e (push-Both (literal (c ∷ [])) _ _ (a false s (omega arith)))
]

scan_enough :
    (f g : ℕ) (found : Bool) (s : Bytes)
    → length s < f
    → length s < g
    → Both (scan f found s) (scan g found s)
unfolding scan
scan_enough zero g found s h k = absurd (omega arith)
scan_enough (suc f) zero found s h k = absurd (omega arith)
scan_enough (suc f) (suc g) found [] h k = (nothing_more none, refl, refl)
scan_enough (suc f) (suc g) found (c ∷ s) h k =
    on_char-Agree (scan f) (scan g) found c s
      (λ b t l. scan_enough f g b t (omega arith) (omega arith))

-- One round of the outer loop, with the fuel that the pattern's length gives.
pub scan_from-cons :
    (found : Bool) (c : ℕ) (s : Bytes) → scan_from found (c ∷ s) ≡ on_char scan_from found c s
unfolding scan
scan_from-cons found c s =
    let (r, h, h') =
      on_char-Agree (scan (suc (length s))) scan_from found c s
        (λ b t l. scan_enough (suc (length s)) (suc (length t)) b t (omega arith) (omega arith)) in
    h ∙ sym h'

-- initItems ends on every pattern: the fuel that init_items takes does not run out, and with any
-- more the result is the same.
init_items_total :
    (pattern : Bytes) (fuel : ℕ)
    → length pattern < fuel
    → (r : Parsed) × (init_items pattern ≡ some r) × (scan fuel false pattern ≡ some r)
unfolding init_items
init_items_total pattern fuel h =
    scan_enough (suc (length pattern)) fuel false pattern (omega arith) h
