-- ===== src/Util.antt =====
-- src/util.cpp: the clock in milliseconds, SleepMs, and the text of a backtrace.
-- gettimeofday, backtrace and backtrace_symbols are arguments: the time, and the frames' texts.
pub mod Backtraces
pub mod Clock
mod Tests
use eva.Base.{
  ℕ, zero, suc, ◌+◌, ◌-◌, ◌*◌, ◌/◌, ◌^◌, List, [], ◌∷◌, ◌++◌, Option, none, some, ltb,
  if◌then◌else◌, u64, u64_max, u32, length, get_elem?, ℤ, pos, negsuc, Bytes, Outcome, ok, abort,
  undefined, ◌>>=◌,
}

-- struct timeval, after 1970.
pub record TimeVal : Type 0 where
  pub sec : ℕ
  pub usec : ℕ

unfoldable pub get_current_ms : TimeVal → ℕ
get_current_ms tv = u64 (u64 (tv.sec * 1000) + tv.usec / 1000)

-- What SleepMs gives to usleep; none where `ms * 1000` overflows an int, which is undefined. A negative
-- product is converted to the unsigned useconds_t.
unfoldable pub sleep_ms : ℤ → Option ℕ
sleep_ms (pos n) = if ltb 2147483647 (n * 1000) then none else some (n * 1000)
sleep_ms (negsuc n) =
    if ltb 2147483648 ((n + 1) * 1000) then none else some (4294967296 - (n + 1) * 1000)

-- `size_t i = skip`.
abbrev pub first_index : ℤ → ℕ
first_index (pos n) = n
first_index (negsuc n) = u64_max - n

-- The loop of Backtrace over the rounds that are left, from the index i on.
unfoldable pub push_from : ℕ → ℕ → List Bytes → List Bytes → Outcome (List Bytes)
push_from zero i strings bt = ok bt
push_from (suc n) i strings bt = elim (get_elem? strings i) [
  | none ↦ abort
  | some line ↦ push_from n (i + 1) strings (bt ++ line ∷ [])
]

-- Backtrace(bt, size, skip); `strings` is what backtrace_symbols gives, none for NULL.
unfoldable pub backtrace : Option (List Bytes) → List Bytes → ℤ → Outcome (List Bytes)
unfolding push_from
backtrace none bt skip = ok bt
backtrace (some strings) bt skip =
    push_from (length strings - first_index skip) (first_index skip) strings bt

-- The loop of BacktraceToString.
unfoldable pub write_lines : Bytes → List Bytes → Bytes → Bytes
write_lines prefix [] ss = ss
write_lines prefix (line ∷ bt) ss = write_lines prefix bt (ss ++ (prefix ++ (line ++ b'\n' ∷ [])))

unfoldable pub backtrace_to_string : Option (List Bytes) → ℤ → Bytes → Outcome Bytes
unfolding backtrace write_lines
backtrace_to_string strings skip prefix = do
  bt ← backtrace strings [] skip
  ok (write_lines prefix bt [])
