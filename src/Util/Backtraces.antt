-- ===== src/Util/Backtraces.antt =====
-- The text of a backtrace.
use eva.Base.{
  ℕ, zero, suc, ◌+◌, ◌-◌, ◌≤◌, ◌<◌, ◌≡◌, refl, sym, ap, ◌∙◌, List, [], ◌∷◌, ◌++◌, none, some,
  length, get_elem?, pos, negsuc, Bytes, ok, arith, u64_max,
}
use native.Mathlib.Decide.{dec_le}
use mathlib.Core.List.{append_assoc, append-nil}
use eva.Util.{push_from, write_lines, backtrace_to_string}

abbrev pub drop {ℓ} : {A : Type ℓ} → ℕ → List A → List A
drop zero xs = xs
drop (suc n) [] = []
drop (suc n) (x ∷ xs) = drop n xs

-- The lines after the first ones that are skipped, each between the prefix and a line feed.
abbrev pub shown : Bytes → List Bytes → Bytes
shown prefix [] = []
shown prefix (line ∷ lines) = (prefix ++ (line ++ b'\n' ∷ [])) ++ shown prefix lines

write_lines-shown :
    (prefix : Bytes) (lines : List Bytes) (ss : Bytes)
    → write_lines prefix lines ss ≡ ss ++ shown prefix lines
unfolding write_lines
write_lines-shown prefix [] ss = sym (append-nil ss)
write_lines-shown prefix (line ∷ lines) ss =
    write_lines-shown prefix lines (ss ++ (prefix ++ (line ++ b'\n' ∷ [])))
    ∙ append_assoc ss (prefix ++ (line ++ b'\n' ∷ [])) (shown prefix lines)

drop-line :
    (i : ℕ) (xs : List Bytes)
    → i < length xs
    → (x : Bytes) × (get_elem? xs i ≡ some x) × (drop i xs ≡ x ∷ drop (i + 1) xs)
drop-line i [] h = elim h [ ]
drop-line zero (x ∷ xs) h = (x, refl, refl)
drop-line (suc i) (x ∷ xs) h =
    let (y, e, d) = drop-line i xs (omega arith) in
    let same : suc (i + 1) ≡ suc i + 1 = omega arith in
    (y, e, d ∙ ap (λ (n : ℕ). y ∷ drop n (x ∷ xs)) same)

drop_all : (n : ℕ) (xs : List Bytes) → length xs ≤ n → drop n xs ≡ []
drop_all zero [] h = refl
drop_all zero (x ∷ xs) h = absurd (omega arith)
drop_all (suc n) [] h = refl
drop_all (suc n) (x ∷ xs) h = drop_all n xs (omega arith)

push_from-drop :
    (n i : ℕ) (strings bt : List Bytes)
    → n + i ≡ length strings
    → push_from n i strings bt ≡ ok (bt ++ drop i strings)
unfolding push_from
push_from-drop zero i strings bt h =
    ap ok (sym (append-nil bt) ∙ ap (λ xs. bt ++ xs) (sym (drop_all i strings (omega arith))))
push_from-drop (suc n) i strings bt h =
    let (x, e, d) = drop-line i strings (omega arith) in
    rw (e, push_from, d)
      (push_from-drop n (i + 1) strings (bt ++ x ∷ []) (omega arith)
        ∙ ap ok (append_assoc bt (x ∷ []) (drop (i + 1) strings)))

pushed :
    (i : ℕ) (strings : List Bytes)
    → push_from (length strings - i) i strings [] ≡ ok (drop i strings)
unfolding push_from
pushed i strings = elim (dec_le i (length strings)) [
  | yes p ↦ push_from-drop (length strings - i) i strings [] (omega arith)
  | no p ↦
      let none_left : length strings - i ≡ 0 = omega arith in
      rw (none_left, push_from, drop_all i strings (omega arith))
]

-- BacktraceToString never reads outside the array. Where backtrace_symbols gives the lines of a stack
-- of less than 2 ^ 63 frames, it shows those behind the first `skip`, each behind the prefix and on
-- a line of its own, and none if skip is negative; where backtrace_symbols gives NULL, nothing.
pub backtrace_to_string_lem :
    (strings : List Bytes) (n : ℕ) (prefix : Bytes)
    → length strings < 9223372036854775808
    → n < 2147483648
    → (backtrace_to_string (some strings) (pos n) prefix ≡ ok (shown prefix (drop n strings)))
      × (backtrace_to_string (some strings) (negsuc n) prefix ≡ ok [])
      × (backtrace_to_string none (pos n) prefix ≡ ok [])
unfolding backtrace_to_string
backtrace_to_string_lem strings n prefix few int = (
  rw (pushed n strings) (ap ok (write_lines-shown prefix (drop n strings) [])),
  rw (pushed (u64_max - n) strings, drop_all (u64_max - n) strings (omega arith)),
  refl,
)
