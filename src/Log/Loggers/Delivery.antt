-- ===== src/Log/Loggers/Delivery.antt =====
-- What logging writes, and where: to the console, to files and to the appenders' own streams.
use mathlib.Core.List.{append-nil}
use eva.Base.{
  ℕ, ◌≡◌, refl, sym, ap, fun_ext, Bool, true, false, not, ◌&&◌, List, [], ◌++◌, Option, ◌==◌,
  if◌then◌else◌, update, Bytes, same_text, same_text→eq, arith, Bool-cases, inl, inr, ==→eq,
}
use eva.Log.{Level, Item}
use eva.Log.Loggers.Dict.{find_text-put_text}
use eva.Log.Appenders.{FileStream, Sink, stdout, file, stream, Appender}
use eva.Log.Loggers.{Logging, find_text, put_text, content, write}

-- Where text can be read afterwards.
pub data Target : Type 0 where
  terminal : Target
  file_named : Bytes → Target
  stream_of : ℕ → Target

abbrev pub kept_text : Sink → Bytes
kept_text stdout = []
kept_text (file f) = []
kept_text (stream s) = s

abbrev pub read : Logging → Target → Bytes
read w terminal = w.console
read w (file_named n) = content (find_text n w.files)
read w (stream_of a) = kept_text (w.appender_at a).sink

-- Whether the appender at an address, with this sink, writes to a target.
abbrev pub goes : Target → ℕ → Sink → Bool
goes terminal a stdout = true
goes (file_named n) a (file f) = (f.is_open && not f.failed) && same_text n f.name
goes (stream_of b) a (stream s) = b == a
goes _ a _ = false

same_goes : (t : Target) (a : ℕ) (s s' : Bytes) → goes t a (stream s) ≡ goes t a (stream s')
same_goes terminal a s s' = refl
same_goes (file_named n) a s s' = refl
same_goes (stream_of b) a s s' = refl

abbrev pub sinks : Logging → Target → ℕ → Bool
sinks w t a = goes t a (w.appender_at a).sink

abbrev pub levels : Logging → ℕ → Level
levels w a = (w.appender_at a).level

abbrev pub formatters : Logging → ℕ → Option (List Item)
formatters w a = (w.appender_at a).formatter

-- What logging leaves as it is.
pub record Keeps (w w' : Logging) : Type 0 where
  pub same_loggers : w'.logger_at ≡ w.logger_at
  pub same_sinks : sinks w' ≡ sinks w
  pub same_levels : levels w' ≡ levels w
  pub same_formatters : formatters w' ≡ formatters w

write_file-open :
    (w : Logging) (a : ℕ) (f : FileStream) (s : Bytes) (t : Target)
    → (f.is_open && not f.failed) ≡ true
    → read
        (record w { files = put_text f.name (content (find_text f.name w.files) ++ s) w.files })
        t
      ≡ read w t ++ (if goes t a (file f) then s else [])
write_file-open w a f s terminal y = sym (append-nil _)
write_file-open w a f s (stream_of b) y = sym (append-nil _)
write_file-open w a f s (file_named n) y = rw y (
    rw (find_text-put_text f.name n (content (find_text f.name w.files) ++ s) w.files)
      (elim (Bool-cases (same_text n f.name)) [
        | inl e ↦
            rw e (ap (λ k. content (find_text k w.files) ++ s) (sym (same_text→eq n f.name e)))
        | inr e ↦ rw e (sym (append-nil _))
      ]))

write_file-closed :
    (w : Logging) (a : ℕ) (f : FileStream) (s : Bytes) (t : Target)
    → (f.is_open && not f.failed) ≡ false
    → read w t ≡ read w t ++ (if goes t a (file f) then s else [])
write_file-closed w a f s terminal n = sym (append-nil _)
write_file-closed w a f s (stream_of b) n = sym (append-nil _)
write_file-closed w a f s (file_named k) n = rw n (sym (append-nil _))

-- A write adds the text to the target of its sink, and to no other.
pub read-write :
    (w : Logging) (a : ℕ) (k : Sink) (s : Bytes) (t : Target)
    → (w.appender_at a).sink ≡ k
    → read (write w a k s) t ≡ read w t ++ (if goes t a k then s else [])
unfolding write
read-write w a stdout s terminal e = refl
read-write w a stdout s (file_named n) e = sym (append-nil _)
read-write w a stdout s (stream_of b) e = sym (append-nil _)
read-write w a (file f) s t e = elim (Bool-cases (f.is_open && not f.failed)) [
  | inl y ↦ rw (y, write) (write_file-open w a f s t y)
  | inr n ↦ rw (n, write) (write_file-closed w a f s t n)
]
read-write w a (stream ss) s terminal e = sym (append-nil _)
read-write w a (stream ss) s (file_named n) e = sym (append-nil _)
read-write w a (stream ss) s (stream_of b) e =
    ground (arith, append-nil (kept_text (w.appender_at b).sink))

-- What a stream holds does not change where its appender writes to.
goes-update :
    (h : ℕ → Appender) (a : ℕ) (x : Appender) (ss ss' : Bytes) (t : Target) (b : ℕ)
    → (h a).sink ≡ stream ss
    → x.sink ≡ stream ss'
    → goes t b (update h a x b).sink ≡ goes t b (h b).sink
goes-update h a x ss ss' t b e e' = elim (Bool-cases (a == b)) [
  | inl y ↦ rw y (rw (← ==→eq a b y) (rw e (rw e' (same_goes t a ss' ss))))
  | inr n ↦ rw n
]

pub Keeps-write :
    (w : Logging) (a : ℕ) (k : Sink) (s : Bytes)
    → (w.appender_at a).sink ≡ k
    → Keeps w (write w a k s)
unfolding write
Keeps-write w a stdout s e = record {
  same_loggers = refl;
  same_sinks = refl;
  same_levels = refl;
  same_formatters = refl;
}
Keeps-write w a (file f) s e = elim (Bool-cases (f.is_open && not f.failed)) [
  | inl y ↦ rw y (record {
    same_loggers = refl;
    same_sinks = refl;
    same_levels = refl;
    same_formatters = refl;
  })
  | inr n ↦ rw n (record {
    same_loggers = refl;
    same_sinks = refl;
    same_levels = refl;
    same_formatters = refl;
  })
]
Keeps-write w a (stream ss) s e = record {
  same_loggers = refl;
  same_sinks = fun_ext (λ t. fun_ext (λ b. goes-update w.appender_at a _ ss (ss ++ s) t b e refl));
  same_levels = fun_ext (λ b. ground arith);
  same_formatters = fun_ext (λ b. ground arith);
}
