-- ===== src/Log/Loggers.antt =====
-- src/log.h and src/log.cpp: appenders, loggers and the LoggerManager.
-- Appenders and loggers are addresses in stores; a LogFormatter never changes and is the list of its
-- items. Each operation is one step under its lock.
pub mod Dict
pub mod Delivery
pub mod Logged
pub mod Registry
use eva.Base.{
  ℕ, ◌+◌, Bool, true, false, not, ◌&&◌, ◌||◌, List, [], ◌∷◌, ◌++◌, Option, none, some, leb, ◌==◌,
  if◌then◌else◌, update, Outcome, ok, abort, ◌>>=◌, Bytes, codes, same_text,
}
use eva.Log.{Level, debug, info, warn, error, fatal, rank, LogEvent, Item, format}
use eva.Log.Appenders.{FileStream, Sink, stdout, file, stream, Appender, new_appender}
use eva.Log.Pattern.{Parsed, error_text, ParseError, init_items}

pub record Logger : Type 0 where
  pub name : Bytes
  pub level : Level
  pub formatter : List Item
  pub appenders : List ℕ

-- `loggers` and `root` are m_loggers and m_root_logger of the LoggerManager.
pub record Logging : Type 0 where
  pub appender_at : ℕ → Appender
  pub logger_at : ℕ → Logger
  pub loggers : List (Bytes × ℕ)
  pub root : ℕ
  pub console : Bytes
  pub files : List (Bytes × Bytes)

abbrev pub default_pattern : Bytes
default_pattern = codes "%d{%Y-%m-%d %a %H:%M:%S}%T[%p]%T[%c]%T%t%T%N%T%F%T%f{5}%T%l%T%m%n"

abbrev pub items_of : Option Parsed → List Item
items_of none = []
items_of (some r) = r.items

abbrev pub reported : Option Parsed → Bytes
reported none = []
reported (some r) = elim r.error [ none ↦ [] | some e ↦ error_text e ]

-- The constructor of LogFormatter: its items, and what it writes to the console.
unfoldable pub new_formatter : Bytes → List Item × Bytes
unfolding init_items error_text
new_formatter pattern = (items_of (init_items pattern), reported (init_items pattern))

abbrev pub say : Logging → Bytes → Logging
say w s = record w { console = w.console ++ s }

-- A dictionary with texts as keys.
module _ {ℓ} {V : Type ℓ} where
  unfoldable pub find_text : Bytes → List (Bytes × V) → Option V
  unfolding same_text
  find_text k [] = none
  find_text k ((j, v) ∷ m) = if same_text k j then some v else find_text k m

  unfoldable pub put_text : Bytes → V → List (Bytes × V) → List (Bytes × V)
  unfolding same_text
  put_text k v [] = (k, v) ∷ []
  put_text k v ((j, u) ∷ m) = if same_text k j then (k, v) ∷ m else (j, u) ∷ put_text k v m

abbrev pub content : Option Bytes → Bytes
content none = []
content (some s) = s

-- The constructor of Logger, at the address p.
unfoldable pub new_logger : Logging → ℕ → Bytes → Level → Bytes → Logging
unfolding new_formatter
new_logger w p name level pattern =
    let (items, said) = new_formatter pattern in
    say
      (record w {
        logger_at =
            update w.logger_at p
              (record { name = name; level = level; formatter = items; appenders = [] });
      })
      said

-- The two setFormatter of a LogAppender, and setLevel.
unfoldable pub set_formatter : Logging → ℕ → Option (List Item) → Logging
set_formatter w a f = record w {
  appender_at = update w.appender_at a (record (w.appender_at a) { formatter = f });
}

unfoldable pub set_pattern : Logging → ℕ → Bytes → Logging
unfolding set_formatter new_formatter
set_pattern w a pattern =
    let (items, said) = new_formatter pattern in say (set_formatter w a (some items)) said

unfoldable pub set_level : Logging → ℕ → Level → Logging
set_level w a l = record w {
  appender_at = update w.appender_at a (record (w.appender_at a) { level = l });
}

abbrev pub change_logger : Logging → ℕ → (Logger → Logger) → Logging
change_logger w p f = record w { logger_at = update w.logger_at p (f (w.logger_at p)) }

abbrev pub or_own : Option (List Item) → List Item → Option (List Item)
or_own none items = some items
or_own (some f) items = some f

-- The setFormatter and the setLevel of a Logger: they do not reach its appenders.
unfoldable pub set_logger_formatter : Logging → ℕ → List Item → Logging
set_logger_formatter w p f = change_logger w p (λ l. record l { formatter = f })

unfoldable pub set_logger_level : Logging → ℕ → Level → Logging
set_logger_level w p v = change_logger w p (λ l. record l { level = v })

-- addLogAppender, delLogAppender and clearLogAppenders.
unfoldable pub add_appender : Logging → ℕ → ℕ → Logging
add_appender w p a =
    let x : Appender = w.appender_at a in
    let w' : Logging = change_logger w p (λ l. record l { appenders = l.appenders ++ a ∷ [] }) in
    record w' {
      appender_at =
          update w.appender_at a
            (record x { formatter = or_own x.formatter (w.logger_at p).formatter });
    }

unfoldable pub remove : ℕ → List ℕ → List ℕ
remove a [] = []
remove a (b ∷ bs) = if a == b then remove a bs else b ∷ remove a bs

unfoldable pub del_appender : Logging → ℕ → ℕ → Logging
unfolding remove
del_appender w p a = change_logger w p (λ l. record l { appenders = remove a l.appenders })

unfoldable pub clear_appenders : Logging → ℕ → Logging
clear_appenders w p = change_logger w p (λ l. record l { appenders = [] })

-- What an appender does with a text: nothing reaches a file that is not open.
unfoldable pub write : Logging → ℕ → Sink → Bytes → Logging
unfolding find_text put_text
write w a stdout s = say w s
write w a (file f) s =
    if f.is_open && not f.failed
    then record w { files = put_text f.name (content (find_text f.name w.files) ++ s) w.files }
    else w
write w a (stream ss) s = record w {
  appender_at = update w.appender_at a (record (w.appender_at a) { sink = stream (ss ++ s) });
}

abbrev pub deref_formatter : Option (List Item) → Outcome (List Item)
deref_formatter none = abort
deref_formatter (some items) = ok items

abbrev pub names : Logging → ℕ → Bytes
names w p = (w.logger_at p).name

module _ (strftime : Bytes → ℕ → Option Bytes) where
  -- The log of the three appenders.
  unfoldable pub append : Logging → ℕ → LogEvent → Outcome Logging
  unfolding rank write
  append w a e =
      let x : Appender = w.appender_at a in
      if leb (rank x.level) (rank e.level)
      then (do
        items ← deref_formatter x.formatter
        s ← format strftime (names w) items e
        ok (write w a x.sink s))
      else ok w

  unfoldable pub append_all : Logging → List ℕ → LogEvent → Outcome Logging
  unfolding append
  append_all w [] e = ok w
  append_all w (a ∷ rest) e = do w' ← append w a e; append_all w' rest e

  -- Logger::log; info, debug and the others call it with their level.
  unfoldable pub log : Logging → ℕ → Level → LogEvent → Outcome Logging
  unfolding rank append_all
  log w p level e =
      let l : Logger = w.logger_at p in
      if leb (rank l.level) (rank level) then append_all w l.appenders e else ok w

  -- The destructor of a LogWrapper of the logger and the event.
  unfoldable pub end_wrapper : Logging → ℕ → LogEvent → Outcome Logging
  unfolding log
  end_wrapper w p e = log w p e.level e

  -- The macro EVA_LOG_LEVEL, with the text that is written to the stream of the LogWrapper's event.
  unfoldable pub eva_log : Logging → ℕ → LogEvent → Bytes → Outcome Logging
  unfolding rank end_wrapper
  eva_log w p e text =
      if leb (rank (w.logger_at p).level) (rank e.level)
      then end_wrapper w p (record e { ss = e.ss ++ text })
      else ok w

-- The rest of getLogger, where m_loggers has no logger of this name; p and a are the addresses of
-- the new objects.
unfoldable pub make_logger : Logging → Bytes → ℕ → ℕ → Logging
unfolding new_logger add_appender put_text
make_logger w name p a =
    let w1 : Logging = new_logger w p name debug default_pattern in
    let w2 : Logging = record w1 { appender_at = update w1.appender_at a (new_appender stdout) } in
    let w3 : Logging = add_appender w2 p a in record w3 { loggers = put_text name p w3.loggers }

abbrev pub found_or_made : Logging → Bytes → ℕ → ℕ → Option ℕ → Logging × ℕ
unfolding make_logger
found_or_made w name p a (some q) = (w, q)
found_or_made w name p a none = (make_logger w name p a, p)

unfoldable pub get_logger : Logging → Bytes → ℕ → ℕ → Logging × ℕ
unfolding make_logger find_text
get_logger w name p a = found_or_made w name p a (find_text name w.loggers)

-- The constructor of LoggerManager.
unfoldable pub new_logger_manager : Logging → ℕ → ℕ → Logging
unfolding make_logger
new_logger_manager w p a = record (make_logger (record w { loggers = [] }) (codes "root") p a) {
  root = p;
}
