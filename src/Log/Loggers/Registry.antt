-- ===== src/Log/Loggers/Registry.antt =====
-- LoggerManager of src/log.cpp: which logger a name has, and what a new logger writes.
use eva.Base.{
  ℕ, ℤ, ◌≡◌, ◌≢◌, ◌==◌, ◌≤◌, ◌<◌, ◌⊎◌, inl, inr, refl, ◌∙◌, true, List, [], ◌∷◌, ◌++◌, Option, none,
  some, leb, if◌then◌else◌, Outcome, ok, atoi, abort, undefined, ◌>>=◌, Bytes, codes, arith,
  same_text, same_text_self, same_text→eq, ==_self,
}
use eva.Log.{
  debug, rank, LogEvent, Item, date, message, line_number, logger_name, tab, new_line, level_name,
  file_name, thread_number, thread_title, fiber_number, literal, format, format_item, skip_dirs,
  pred_int,
}
use eva.Log.Files.{IsOneLine, depth_of, skip_dirs_lem}
use eva.Log.Appenders.{stdout}
use eva.Log.Loggers.{
  Logging, find_text, append, log, names, get_logger, found_or_made, make_logger, default_pattern,
  new_formatter,
}
use eva.Log.Loggers.Dict.{find_text-put_text}

-- The items of DEFAULT_PATTERN: up to the file name, and behind it.
abbrev pub items_before : List Item
items_before =
    date (codes "%Y-%m-%d %a %H:%M:%S")
    ∷ tab
    ∷ literal (codes "[")
    ∷ level_name
    ∷ literal (codes "]")
    ∷ tab
    ∷ literal (codes "[")
    ∷ logger_name
    ∷ literal (codes "]")
    ∷ tab
    ∷ thread_number
    ∷ tab
    ∷ thread_title
    ∷ tab
    ∷ fiber_number
    ∷ tab
    ∷ []

abbrev pub items_behind : List Item
items_behind = tab ∷ line_number ∷ tab ∷ message ∷ new_line ∷ []

abbrev pub default_items : List Item
default_items = items_before ++ file_name (codes "5") ∷ items_behind

default_items_lem : new_formatter default_pattern ≡ (default_items, [])
unfolding new_formatter
default_items_lem = refl

-- A logger and its one appender as getLogger makes them.
abbrev pub IsNew : Logging → Bytes → ℕ → ℕ → Type 0
IsNew w name p a =
    (w.logger_at p
      ≡ record { name = name; level = debug; formatter = default_items; appenders = a ∷ [] })
    × (w.appender_at a ≡ record { formatter = some default_items; level = debug; sink = stdout })

make_logger-IsNew : (w : Logging) (name : Bytes) (p a : ℕ) → IsNew (make_logger w name p a) name p a
unfolding make_logger
make_logger-IsNew w name p a = rw (==_self p) (rw (==_self a) (refl, refl))

found_other :
    (w : Logging) (name : Bytes) (q : ℕ)
    → find_text name w.loggers ≡ some q
    → (j : Bytes)
    → find_text j w.loggers ≡ (if same_text j name then some q else find_text j w.loggers)
found_other w name q e j = ground (arith, same_text→eq j name)

by_found :
    (w : Logging) (name : Bytes) (p a : ℕ) (o : Option ℕ)
    → find_text name w.loggers ≡ o
    → (w' : Logging) × (q : ℕ) × (found_or_made w name p a o ≡ (w', q))
      × ((j : Bytes)
          → find_text j w'.loggers ≡ (if same_text j name then some q else find_text j w.loggers))
      × (((find_text name w.loggers ≡ some q) × (w' ≡ w))
          ⊎ ((find_text name w.loggers ≡ none) × (q ≡ p) × IsNew w' name p a))
unfolding found_or_made
by_found w name p a (some q) e = (w, q, refl, found_other w name q e, inl (e, refl))
by_found w name p a none e = (
  make_logger w name p a,
  p,
  refl,
  (λ j. find_text-put_text name j p w.loggers),
  inr (e, refl, make_logger-IsNew w name p a),
)

again :
    (w : Logging) (name : Bytes) (q p a : ℕ)
    → find_text name w.loggers ≡ some q
    → get_logger w name p a ≡ (w, q)
unfolding get_logger
again w name q p a e = rw (e, found_or_made)

-- After getLogger the name has the logger that was returned, and every other name the one it had
-- before. If the name had a logger, that one is returned and nothing changes; if not, it is the new
-- one, with the level DEBUG, whose one appender writes to the console by the default pattern.
pub get_logger_lem :
    (w : Logging) (name : Bytes) (p a : ℕ)
    → (w' : Logging) × (q : ℕ) × (get_logger w name p a ≡ (w', q))
      × ((j : Bytes)
          → find_text j w'.loggers ≡ (if same_text j name then some q else find_text j w.loggers))
      × (((find_text name w.loggers ≡ some q) × (w' ≡ w))
          ⊎ ((find_text name w.loggers ≡ none) × (q ≡ p) × IsNew w' name p a))
unfolding get_logger
get_logger_lem w name p a = by_found w name p a (find_text name w.loggers) refl

-- A second getLogger of the name returns the same logger and changes nothing, whatever addresses it
-- would use.
pub get_logger_again :
    (w : Logging) (name : Bytes) (p a p' a' : ℕ)
    → get_logger (get_logger w name p a).0 name p' a' ≡ get_logger w name p a
get_logger_again w name p a p' a' =
    let (w', q, e, f, _) = get_logger_lem w name p a in
    rw e (again w' name q p' a' (f name ∙ rw (same_text_self name)))

skip_dirs-ne-abort : (depth : ℤ) (it : Bytes) → skip_dirs depth it ≢ abort
unfolding skip_dirs
skip_dirs-ne-abort depth [] h = ground arith
skip_dirs-ne-abort depth (c ∷ it) h =
    ground (arith, skip_dirs-ne-abort (if c == b'/' then pred_int depth else depth) it)

-- No item has an ASSERT that could fail.
format_item-ne-abort :
    (strftime : Bytes → ℕ → Option Bytes) (ns : ℕ → Bytes) (i : Item) (e : LogEvent)
    → format_item strftime ns i e ≢ abort
unfolding format_item
format_item-ne-abort strftime ns (date pattern) e h = ground arith
format_item-ne-abort strftime ns logger_name e h = ground arith
format_item-ne-abort strftime ns (file_name pattern) e h =
    skip_dirs-ne-abort (atoi pattern) e.file h
format_item-ne-abort strftime ns message e h = cc
format_item-ne-abort strftime ns line_number e h = cc
format_item-ne-abort strftime ns tab e h = cc
format_item-ne-abort strftime ns new_line e h = cc
format_item-ne-abort strftime ns level_name e h = cc
format_item-ne-abort strftime ns thread_number e h = cc
format_item-ne-abort strftime ns thread_title e h = cc
format_item-ne-abort strftime ns fiber_number e h = cc
format_item-ne-abort strftime ns (literal s) e h = cc

-- Once an item is undefined, the pattern is.
format-undefined :
    (strftime : Bytes → ℕ → Option Bytes) (ns : ℕ → Bytes) (e : LogEvent) (first : List Item)
    (i : Item) (rest : List Item)
    → format_item strftime ns i e ≡ undefined
    → format strftime ns (first ++ i ∷ rest) e ≡ undefined
unfolding format
format-undefined strftime ns e [] i rest h = rw h
format-undefined strftime ns e (j ∷ first) i rest h =
    stops (format_item strftime ns j e) _ (format_item-ne-abort strftime ns j e)
      (format-undefined strftime ns e first i rest h)
  where
    stops :
        (o r : Outcome Bytes)
        → o ≢ abort
        → r ≡ undefined
        → (o >>= λ s. r >>= λ t. ok (s ++ t)) ≡ undefined
    stops abort r n h' = absurd (n refl)
    stops undefined r n h' = refl
    stops (ok s) r n h' = rw h'

log_new :
    (strftime : Bytes → ℕ → Option Bytes) (w : Logging) (name : Bytes) (p a : ℕ) (e : LogEvent)
    → IsNew w name p a
    → 1 ≤ rank e.level
    → format strftime (names w) default_items e ≡ undefined
    → log strftime w p e.level e ≡ undefined
unfolding log append rank
log_new strftime w name p a e n l h =
    let pass : leb 1 (rank e.level) ≡ true = ground arith in
    rw n.0 (rw pass (rw n.1 (rw pass (rw h))))

file_item_undefined :
    (strftime : Bytes → ℕ → Option Bytes) (ns : ℕ → Bytes) (e : LogEvent)
    → IsOneLine e.file
    → depth_of e.file < 5
    → format_item strftime ns (file_name (codes "5")) e ≡ undefined
unfolding format_item atoi
file_item_undefined strftime ns e one d = (skip_dirs_lem 5 e.file one).1 d

-- A logger that getLogger has made reads beyond the end of the source path of an event, which is
-- undefined behaviour, where this path is one line and has fewer than five slashes, whatever else the
-- event holds. (The name of a null logger, and a strftime that fails, are undefined too.)
pub default_pattern_undefined :
    (strftime : Bytes → ℕ → Option Bytes) (w : Logging) (name : Bytes) (p a : ℕ) (e : LogEvent)
    → find_text name w.loggers ≡ none
    → 1 ≤ rank e.level
    → IsOneLine e.file
    → depth_of e.file < 5
    → log strftime (get_logger w name p a).0 p e.level e ≡ undefined
unfolding get_logger
default_pattern_undefined strftime w name p a e f l one d =
    rw (f, found_or_made)
      (log_new strftime (make_logger w name p a) name p a e (make_logger-IsNew w name p a) l (
        format-undefined strftime (names (make_logger w name p a)) e items_before
          (file_name (codes "5")) items_behind (file_item_undefined strftime _ e one d)))
