-- ===== src/Log/Tests.antt =====
-- The formatter, the loggers and the LoggerManager of src/log.cpp on concrete inputs.
use eva.Base.{
  ℕ, ◌≡◌, ◌≤◌, refl, true, false, List, [], ◌∷◌, ◌++◌, map, Option, none, some, ltb, leb,
  if◌then◌else◌, ok, undefined, Bytes, codes, arith, pos,
}
use eva.Log.{Level, debug, info, warn, rank, LogEvent, Item, message, level_name, literal, format}
use eva.Log.Files.{IsOneLine, behind}
use eva.Log.Pattern.{init_items, open_brace, formats}
use eva.Log.Pattern.Segments.{Segment, byte, key, key_fmt, show, item_of, IsReadable}
use eva.Log.Pattern.Meaning.{
  Tail, done, tail_text, tail_parsed, IsTail, init_items-show, init_items_lem,
}
use eva.Log.Appenders.{FileStream, stdout, stream}
use eva.Log.Loggers.{Logging, find_text, log, get_logger, names}
use eva.Log.Loggers.Delivery.{Target, read, levels, sinks}
use eva.Log.Loggers.Logged.{added, log_lem}
use eva.Log.Loggers.Registry.{default_pattern_undefined}

abbrev path : Bytes
path = codes "src/a.c"

path-IsOneLine : IsOneLine path
path-IsOneLine = (refl, (refl, (refl, (refl, (refl, (refl, (refl, tt)))))))

behind_first : behind 1 path ≡ codes "a.c"
behind_first = refl

abbrev opened : Bytes
opened = codes "[%p]%d{%H"

opened_read :
    init_items opened
    ≡ some (record {
      items = literal (codes "[") ∷ level_name ∷ literal (codes "]") ∷ Item.date (codes "%H") ∷ [];
      error = some open_brace;
    })
unfolding init_items
opened_read = refl

abbrev parts : List Segment
parts = byte b'[' ∷ key b'p' ∷ byte b']' ∷ key_fmt b'f' (codes "2") ∷ []

parts-IsReadable : IsReadable parts (tail_text done)
unfolding formats
parts-IsReadable = (refl, ((λ e. cc), refl, (refl, ((λ e. cc), (refl, tt), tt))))

init_items-show_example :
    init_items (show parts (tail_text done))
    ≡ some (record {
      items = map item_of parts ++ (tail_parsed done).items;
      error = (tail_parsed done).error;
    })
init_items-show_example = init_items-show parts done parts-IsReadable tt

init_items_example :
    (gs : List Segment) × (t : Tail) × (opened ≡ show gs (tail_text t))
    × IsReadable gs (tail_text t)
    × IsTail t
    × (init_items opened
        ≡ some (record {
          items = map item_of gs ++ (tail_parsed t).items;
          error = (tail_parsed t).error;
        }))
init_items_example = init_items_lem opened

abbrev no_clock : Bytes → ℕ → Option Bytes
no_clock pattern time = some []

abbrev event : LogEvent
event = record {
  file = path;
  line = pos 12;
  time = 0;
  level = warn;
  thread_id = 7;
  fiber_id = 3;
  thread_name = codes "main";
  ss = codes "hello";
  logger = some 0;
}

-- A logger with the console and with a stream, which is for errors only.
abbrev two_appenders : Logging
two_appenders = record {
  appender_at = λ a.
      if ltb a 1
      then record { formatter = some (message ∷ []); level = debug; sink = stdout }
      else record { formatter = some (message ∷ []); level = Level.error; sink = stream [] };
  logger_at =
      λ p. record { name = codes "test"; level = info; formatter = []; appenders = 0 ∷ 1 ∷ [] };
  loggers = [];
  root = 0;
  console = codes "> ";
  files = [];
}

hello_formatted : format no_clock (names two_appenders) (message ∷ []) event ≡ ok (codes "hello")
unfolding format
hello_formatted = refl

log_example :
    (w' : Logging) × (log no_clock two_appenders 0 warn event ≡ ok w')
    × (w'.logger_at ≡ two_appenders.logger_at)
    × ((t : Target)
        → read w' t
          ≡ read two_appenders t
            ++ (if leb (rank info) (rank warn)
                then added
                    (levels two_appenders)
                    (sinks two_appenders)
                    (λ a. codes "hello")
                    warn
                    t
                    (0 ∷ 1 ∷ [])
                else []))
log_example =
    log_lem no_clock event (λ a. codes "hello") two_appenders 0 warn
      ((message ∷ [], refl, hello_formatted), ((message ∷ [], refl, hello_formatted), tt))

no_system : find_text (codes "system") two_appenders.loggers ≡ none
unfolding find_text
no_system = refl

warn_rank : 1 ≤ rank event.level
unfolding rank
warn_rank = omega arith

default_pattern_undefined_example :
    log no_clock (get_logger two_appenders (codes "system") 5 6).0 5 warn event ≡ undefined
default_pattern_undefined_example =
    default_pattern_undefined no_clock two_appenders (codes "system") 5 6 event no_system warn_rank
      path-IsOneLine (omega arith)

abbrev closed_file : FileStream
closed_file = record { name = codes "log"; is_open = false; failed = true }
