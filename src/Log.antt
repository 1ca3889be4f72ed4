-- ===== src/Log.antt =====
-- src/log.h and src/log.cpp: levels, events, and the items that write an event.
-- Text is a list of bytes; what an operation writes to a stream is its result. strftime and
-- localtime_r are the parameter `strftime`: the text for a pattern and a time, or none where it does
-- not fit into the 64 bytes of `buf`, whose content is then undefined. Undefined behaviour and a null
-- pointer that is followed end the process.
pub mod Files
pub mod Pattern
pub mod Appenders
pub mod Loggers
mod Tests
use eva.Base.{
  ℕ, zero, suc, ◌+◌, ◌-◌, Bool, true, false, ◌||◌, List, [], ◌∷◌, ◌++◌, Option, none, some, ltb,
  leb, ◌==◌, if◌then◌else◌, ℤ, pos, negsuc, Outcome, ok, undefined, ◌>>=◌, is_empty, Bytes, codes,
  decimal, decimal_int, atoi,
}

pub data Level : Type 0 where
  unknow debug info warn error fatal : Level

-- The values of the enum, by which levels are compared.
unfoldable pub rank : Level → ℕ
rank unknow = 0
rank debug = 1
rank info = 2
rank warn = 3
rank error = 4
rank fatal = 5

-- LogLevel::toString.
unfoldable pub to_string : Level → Bytes
to_string unknow = codes "UNKNOW"
to_string debug = codes "DEBUG"
to_string info = codes "INFO"
to_string warn = codes "WARN"
to_string error = codes "ERROR"
to_string fatal = codes "FATAL"

-- `file` is the C string up to its NUL, `logger` an address, and `ss` what m_ss holds.
pub record LogEvent : Type 0 where
  pub file : Bytes
  pub line : ℤ
  pub time : ℕ
  pub level : Level
  pub thread_id : ℕ
  pub fiber_id : ℕ
  pub thread_name : Bytes
  pub ss : Bytes
  pub logger : Option ℕ

-- The classes that derive from LogFormatter::Item; only those with m_pattern keep it.
pub data Item : Type 0 where
  date : Bytes → Item
  message line_number logger_name tab new_line level_name : Item
  file_name : Bytes → Item
  thread_number thread_title fiber_number : Item
  literal : Bytes → Item

-- The constructor of DateLogItem.
unfoldable pub date_item : Bytes → Item
date_item pattern = date (if is_empty pattern then codes "%Y-%m-%d %H:%M:%S" else pattern)

-- `--depth` on an int.
unfoldable pub pred_int : ℤ → ℤ
pred_int (pos zero) = negsuc 0
pred_int (pos (suc n)) = pos n
pred_int (negsuc n) = negsuc (suc n)

abbrev pub is_zero : ℤ → Bool
is_zero (pos n) = n == 0
is_zero (negsuc n) = false

-- The loop of FileLogItem::format, which gives what `it` points to: it stops at a newline or when
-- depth is 0. One step on from the NUL, `*it` is read out of bounds,
-- and nothing is known of what follows.
unfoldable pub skip_dirs : ℤ → Bytes → Outcome Bytes
unfolding pred_int
skip_dirs depth [] = if is_zero depth then ok [] else undefined
skip_dirs depth (c ∷ it) =
    let next : Outcome Bytes = skip_dirs (if c == b'/' then pred_int depth else depth) it in
    if c == b'\n' || is_zero depth then ok (c ∷ it) else next

abbrev pub deref_logger : (ℕ → Bytes) → Option ℕ → Outcome Bytes
deref_logger names none = undefined
deref_logger names (some p) = ok (names p)

abbrev pub filled : Option Bytes → Outcome Bytes
filled none = undefined
filled (some s) = ok s

-- What the items write; names has the name of the logger at an address.
module _ (strftime : Bytes → ℕ → Option Bytes) (names : ℕ → Bytes) where
  unfoldable pub format_item : Item → LogEvent → Outcome Bytes
  unfolding to_string skip_dirs
  format_item (date pattern) e = filled (strftime pattern e.time)
  format_item message e = ok e.ss
  format_item line_number e = ok (decimal_int e.line)
  format_item logger_name e = deref_logger names e.logger
  format_item tab e = ok (codes "\t")
  format_item new_line e = ok (codes "\n")
  format_item level_name e = ok (to_string e.level)
  format_item (file_name pattern) e = skip_dirs (atoi pattern) e.file
  format_item thread_number e = ok (decimal e.thread_id)
  format_item thread_title e = ok e.thread_name
  format_item fiber_number e = ok (decimal e.fiber_id)
  format_item (literal s) e = ok s

  -- LogFormatter::format, over m_items.
  unfoldable pub format : List Item → LogEvent → Outcome Bytes
  unfolding format_item
  format [] e = ok []
  format (i ∷ items) e = do s ← format_item i e; rest ← format items e; ok (s ++ rest)
