-- ===== src/Base/Text.antt =====
-- Text as a list of bytes, and what the C and C++ libraries read and print as decimal numbers.
use Prim.Native.Nat.{ℕ, zero, suc, ◌+◌, ◌-◌, ◌*◌, ◌/◌, ◌%◌, ◌<◌}
use Prim.Native.Char.{code}
use Prim.Native.String.{String}
use mathlib.Core.Path.{◌≡◌, refl, ap}
use mathlib.Core.Logic.{inl, inr}
use mathlib.Core.Bool.{Bool, true, false, ◌&&◌, ◌||◌}
use mathlib.Core.List.{List, [], ◌∷◌, ◌++◌}
use native.Mathlib.Omega.{arith}
use eva.Base.Tests.{ltb, leb, ◌==◌, if◌then◌else◌, Bool-cases}
use eva.Base.Int.{ℤ, pos, negsuc}

abbrev pub Bytes : Type 0
Bytes = List ℕ

-- The bytes of an ASCII literal.
abbrev pub codes : String → Bytes
codes String.[] = []
codes (String.◌∷◌ c s) = code c ∷ codes s

-- Two texts are compared.
unfoldable pub same_text : Bytes → Bytes → Bool
same_text [] [] = true
same_text (c ∷ s) (d ∷ t) = c == d && same_text s t
same_text _ _ = false

pub same_text_self : (s : Bytes) → same_text s s ≡ true
unfolding same_text
same_text_self [] = refl
same_text_self (c ∷ s) = ground (arith, same_text_self s)

pub same_text→eq : (s t : Bytes) → same_text s t ≡ true → s ≡ t
unfolding same_text
same_text→eq [] [] h = refl
same_text→eq [] (d ∷ t) h = cc
same_text→eq (c ∷ s) [] h = cc
same_text→eq (c ∷ s) (d ∷ t) h = ground (arith, same_text→eq s t)

-- The digits of n, by repeated division; the fuel bounds the divisions.
digits : ℕ → ℕ → Bytes
digits zero n = []
digits (suc fuel) n =
    let rest : Bytes = digits fuel (n / 10) ++ (48 + n % 10) ∷ [] in
    if ltb n 10 then (48 + n) ∷ [] else rest

-- `os << n` for an unsigned number.
unfoldable pub decimal : ℕ → Bytes
unfolding digits
decimal n = digits (suc n) n

digits_enough : (f g n : ℕ) → n < f → n < g → digits f n ≡ digits g n
unfolding digits
digits_enough zero g n h k = absurd (omega arith)
digits_enough (suc f) zero n h k = absurd (omega arith)
digits_enough (suc f) (suc g) n h k = elim (Bool-cases (ltb n 10)) [
  | inl e ↦ rw e
  | inr e ↦ rw e (
      ap (λ ds. ds ++ (48 + n % 10) ∷ [])
        (digits_enough f g (n / 10) (ground arith) (ground arith)))
]

-- The fuel of `decimal` is enough: it satisfies the equation of the division.
pub decimal_lem :
    (n : ℕ)
    → decimal n ≡ (if ltb n 10 then (48 + n) ∷ [] else decimal (n / 10) ++ (48 + n % 10) ∷ [])
unfolding decimal
decimal_lem n = elim (Bool-cases (ltb n 10)) [
  | inl e ↦ rw e
  | inr e ↦ rw e (
      ap (λ ds. ds ++ (48 + n % 10) ∷ [])
        (digits_enough n (suc (n / 10)) (n / 10) (ground arith) (omega arith)))
]

-- `os << n` for a signed number.
unfoldable pub decimal_int : ℤ → Bytes
unfolding decimal
decimal_int (pos n) = decimal n
decimal_int (negsuc n) = b'-' ∷ decimal (n + 1)

abbrev is_digit : ℕ → Bool
is_digit c = leb b'0' c && leb c b'9'

abbrev is_space : ℕ → Bool
is_space c = c == b' ' || leb 9 c && leb c 13

-- The number that the digits at the front of a text spell, after acc.
read_digits : ℕ → Bytes → ℕ
read_digits acc [] = acc
read_digits acc (c ∷ s) =
    let more : ℕ = read_digits (acc * 10 + (c - 48)) s in if is_digit c then more else acc

negated : ℕ → ℤ
negated zero = pos 0
negated (suc n) = negsuc n

signed : Bytes → ℤ
unfolding read_digits negated
signed [] = pos 0
signed (c ∷ s) =
    if c == b'-'
    then negated (read_digits 0 s)
    else if c == b'+'
    then pos (read_digits 0 s)
    else pos (read_digits 0 (c ∷ s))

-- atoi, for a number that an int can hold.
unfoldable pub atoi : Bytes → ℤ
unfolding signed
atoi [] = pos 0
atoi (c ∷ s) = let rest : ℤ = atoi s in if is_space c then rest else signed (c ∷ s)
