-- ===== src/Util/Tests.antt =====
-- SleepMs and backtraces on concrete values.
use eva.Base.{◌≡◌, refl, [], ◌∷◌, none, some, pos, negsuc, codes, ok}
use eva.Util.{sleep_ms, backtrace_to_string}

-- 35 minutes and 48 seconds are too long for an int of microseconds.
slept_second : sleep_ms (pos 1000) ≡ some 1000000
unfolding sleep_ms
slept_second = refl

slept_too_long : sleep_ms (pos 2147484) ≡ none
unfolding sleep_ms
slept_too_long = refl

slept_negative : sleep_ms (negsuc 0) ≡ some 4294966296
unfolding sleep_ms
slept_negative = refl

two_lines :
    backtrace_to_string (some (codes "a" ∷ codes "b" ∷ codes "c" ∷ [])) (pos 1) (codes "> ")
    ≡ ok (codes "> b\n> c\n")
unfolding backtrace_to_string
two_lines = refl
