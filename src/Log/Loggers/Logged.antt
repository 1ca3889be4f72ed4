-- ===== src/Log/Loggers/Logged.antt =====
-- Logger::log and the macros of src/log.h: which texts an event adds to which target.
use mathlib.Core.List.{append-nil, append_assoc}
use eva.Base.{
  ℕ, ◌≡◌, refl, sym, ap, subst, ◌∙◌, Bool, ◌&&◌, List, [], ◌∷◌, ◌++◌, Option, some, leb,
  if◌then◌else◌, ok, Bytes, Bool-cases, inl, inr,
}
use eva.Log.{Level, rank, LogEvent, Item, format}
use eva.Log.Loggers.{Logger, Logging, write, append, append_all, log, eva_log, names}
use eva.Log.Loggers.Delivery.{
  Target, read, sinks, levels, formatters, Keeps, read-write, Keeps-write,
}

-- The texts that some appenders add to a target, where an event of the level l is written as
-- `text a` by the appender a: the appenders whose level lets it pass and that write to the target.
abbrev pub added : (ℕ → Level) → (Target → ℕ → Bool) → (ℕ → Bytes) → Level → Target → List ℕ → Bytes
added lv to text l t [] = []
added lv to text l t (a ∷ rest) =
    (if leb (rank (lv a)) (rank l) && to t a then text a else []) ++ added lv to text l t rest

module _ (strftime : Bytes → ℕ → Option Bytes) (e : LogEvent) (text : ℕ → Bytes) where
  -- Every appender of a list has a formatter, and its items return the given text.
  abbrev pub CanFormat : (ℕ → Option (List Item)) → (ℕ → Bytes) → List ℕ → Type 0
  CanFormat fs ns [] = Unit {0}
  CanFormat fs ns (a ∷ rest) =
      ((items : List Item) × (fs a ≡ some items) × (format strftime ns items e ≡ ok (text a)))
      × CanFormat fs ns rest

  append_lem :
      (w : Logging) (a : ℕ) (items : List Item)
      → (w.appender_at a).formatter ≡ some items
      → format strftime (names w) items e ≡ ok (text a)
      → (w' : Logging) × (append strftime w a e ≡ ok w')
        × Keeps w w'
        × ((t : Target)
            → read w' t
              ≡ read w t
                ++ (if leb (rank (levels w a)) (rank e.level) && sinks w t a then text a else []))
  unfolding append
  append_lem w a items f h = elim (Bool-cases (leb (rank (levels w a)) (rank e.level))) [
    | inl y ↦ (
      write w a (w.appender_at a).sink (text a),
      rw y (rw f (rw h)),
      Keeps-write w a (w.appender_at a).sink (text a) refl,
      (λ t. rw y (read-write w a (w.appender_at a).sink (text a) t refl)),
    )
    | inr n ↦ (
      w,
      rw n,
      record { same_loggers = refl; same_sinks = refl; same_levels = refl; same_formatters = refl },
      (λ t. rw n (sym (append-nil _))),
    )
  ]

  CanFormat-Keeps :
      (w w' : Logging) (list : List ℕ)
      → Keeps w w'
      → CanFormat (formatters w) (names w) list
      → CanFormat (formatters w') (names w') list
  CanFormat-Keeps w w' list k c =
      let n : names w' ≡ names w =
        ap {B = ℕ → Bytes} (λ (h : ℕ → Logger) p. (h p).name) k.same_loggers in
      subst (λ fs. CanFormat fs (names w') list) (sym k.same_formatters)
        (subst (λ ns. CanFormat (formatters w) ns list) (sym n) c)

  -- What one appender adds, and what the others add afterwards.
  added-Keeps :
      (w w' : Logging) (t : Target) (old new : Bytes) (list : List ℕ)
      → Keeps w w'
      → (old ++ new) ++ added (levels w') (sinks w') text e.level t list
        ≡ old ++ (new ++ added (levels w) (sinks w) text e.level t list)
  added-Keeps w w' t old new list k = rw k.same_levels (rw k.same_sinks (append_assoc old new _))

  append_all_lem :
      (w : Logging) (list : List ℕ)
      → CanFormat (formatters w) (names w) list
      → (w' : Logging) × (append_all strftime w list e ≡ ok w')
        × (w'.logger_at ≡ w.logger_at)
        × ((t : Target) → read w' t ≡ read w t ++ added (levels w) (sinks w) text e.level t list)
  unfolding append_all
  append_all_lem w [] c = (w, refl, refl, λ t. sym (append-nil _))
  append_all_lem w (a ∷ rest) c =
      let (items, f, h) = c.0 in
      let (w1, r1, k, t1) = append_lem w a items f h in
      let c' : CanFormat (formatters w1) (names w1) rest = CanFormat-Keeps w w1 rest k c.1 in
      let (w2, r2, l2, t2) = append_all_lem w1 rest c' in
      (
        w2,
        rw r1 r2,
        l2 ∙ k.same_loggers,
        (λ t.
            t2 t
            ∙ ap (λ s. s ++ added (levels w1) (sinks w1) text e.level t rest) (t1 t)
            ∙ added-Keeps w w1 t _ _ rest k),
      )

  -- Where each appender of a logger has a formatter whose items all return, Logger::log returns and
  -- changes no logger. Below the logger's level no target changes. Otherwise each target (the
  -- console, a file by its name, the stream of an appender) keeps its text and has behind it, in the
  -- order of the appenders, the texts of those that write to it, whose file is open and whose own
  -- level lets the event pass.
  pub log_lem :
      (w : Logging) (p : ℕ) (level : Level)
      → CanFormat (formatters w) (names w) (w.logger_at p).appenders
      → (w' : Logging) × (log strftime w p level e ≡ ok w')
        × (w'.logger_at ≡ w.logger_at)
        × ((t : Target)
            → read w' t
              ≡ read w t
                ++ (if leb (rank (w.logger_at p).level) (rank level)
                    then added (levels w) (sinks w) text e.level t (w.logger_at p).appenders
                    else []))
  unfolding log
  log_lem w p level c = elim (Bool-cases (leb (rank (w.logger_at p).level) (rank level))) [
    | inl y ↦
        let (w', r, l, t) = append_all_lem w (w.logger_at p).appenders c in
        (w', rw y r, l, λ u. rw y (t u))
    | inr n ↦ (w, rw n, refl, λ u. rw n (sym (append-nil _)))
  ]

-- The test that the macro makes before it builds the event is the one that Logger::log makes: the
-- macro does what a call of log with the event's own level does.
pub eva_log_lem :
    (strftime : Bytes → ℕ → Option Bytes) (w : Logging) (p : ℕ) (e : LogEvent) (s : Bytes)
    → eva_log strftime w p e s ≡ log strftime w p e.level (record e { ss = e.ss ++ s })
unfolding eva_log
eva_log_lem strftime w p e s = elim (Bool-cases (leb (rank (w.logger_at p).level) (rank e.level))) [
  | inl y ↦ rw y
  | inr n ↦ rw (n, log)
]
