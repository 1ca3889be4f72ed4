-- ===== src/Log/Appenders.antt =====
-- src/log.h and src/log.cpp: the appenders, and the streams that they keep.
-- `can_open` tells which files can be opened for appending; a write to an open file does not fail.
pub mod Reopen
use eva.Base.{Bool, true, false, not, ◌&&◌, List, Option, none, if◌then◌else◌, Bytes}
use eva.Log.{Level, debug, Item}

-- The ofstream of a FileLogAppender, with its failbit.
pub record FileStream : Type 0 where
  pub name : Bytes
  pub is_open : Bool
  pub failed : Bool

-- The classes that derive from LogAppender; `stream` has what its m_ss holds.
pub data Sink : Type 0 where
  stdout : Sink
  file : FileStream → Sink
  stream : Bytes → Sink

pub record Appender : Type 0 where
  pub formatter : Option (List Item)
  pub level : Level
  pub sink : Sink

-- A StdoutLogAppender or a StreamLogAppender as it is made.
abbrev pub new_appender : Sink → Appender
new_appender s = record { formatter = none; level = debug; sink = s }

-- StreamLogAppender::flush, on what m_ss holds: clear() resets the flags of a stringstream, and its
-- text stays.
unfoldable pub flush : Bytes → Bytes × Bytes
flush ss = (ss, ss)

-- basic_ofstream::close and open, as FileLogAppender::reopen calls them: to close what is not open
-- sets the failbit, and to open resets it where it succeeds.
unfoldable pub close : FileStream → FileStream
close f = if f.is_open then record f { is_open = false } else record f { failed = true }

unfoldable pub open_stream : (Bytes → Bool) → FileStream → FileStream
open_stream can_open f =
    if not f.is_open && can_open f.name
    then record f { is_open = true; failed = false }
    else record f { failed = true }

unfoldable pub reopen : (Bytes → Bool) → FileStream → FileStream × Bool
unfolding close open_stream
reopen can_open f =
    let closed : FileStream = (if not f.failed then close f else f) in
    let opened : FileStream = open_stream can_open closed in (opened, not opened.failed)

-- The constructor of FileLogAppender.
unfoldable pub new_file : (Bytes → Bool) → Bytes → FileStream
unfolding reopen
new_file can_open name =
    (reopen can_open (record { name = name; is_open = false; failed = false })).0
