-- ===== src/Locks/Ordered.antt =====
-- Every operation of src/ takes its locks in one order.
use eva.Base.{ℕ, ◌<◌, ◌≤◌, Bool, true, false, not, ◌&&◌, List, [], ◌∷◌, if◌then◌else◌, arith}
use eva.Locks.{
  Nest, done, section, followed_by, when, under_shared, files_lock, write_locks, max_rank,
  append_each, log_locks,
}
use eva.Locks.Operations.{
  Wakes, say_locks, tickle_locks, schedule_locks, fire_both_locks, add_timer_locks,
  should_stop_locks, refresh_locks, expired_locks, add_event_locks, del_event_locks,
  cancel_event_locks, cancel_all_locks, schedule_event_locks, get_locks, get_logger_locks, LockCall,
  schedules, tickles, locks_tasks, should_stops, adds_timer, refreshes, cancels, reads_timers,
  expires, adds_event, dels_event, cancels_event, cancels_all, schedules_event, gets_fd, dels_fd,
  gets_logger, logs, changes_logger, changes_appender, locks_of, locks_of_all,
}

-- Where the locks that are held have the rank lo at most, each section takes a lock of a higher rank.
abbrev pub IsOrdered : ℕ → Nest → Type 0
IsOrdered lo done = Unit {0}
IsOrdered lo (section shared l body rest) =
    ((lo < l.rank) × (l.rank ≤ max_rank)) × IsOrdered l.rank body × IsOrdered lo rest

IsOrdered-followed_by :
    (lo : ℕ) (a b : Nest) → IsOrdered lo a → IsOrdered lo b → IsOrdered lo (followed_by a b)
unfolding followed_by
IsOrdered-followed_by lo done b p q = q
IsOrdered-followed_by lo (section shared l body rest) b p q =
    (p.0, p.1, IsOrdered-followed_by lo rest b p.2 q)

IsOrdered-when : (lo : ℕ) (b : Bool) (n : Nest) → IsOrdered lo n → IsOrdered lo (when b n)
IsOrdered-when lo true n p = p
IsOrdered-when lo false n p = tt

IsOrdered-if :
    (lo : ℕ) (b : Bool) (n k : Nest)
    → IsOrdered lo n
    → IsOrdered lo k
    → IsOrdered lo (if b then n else k)
IsOrdered-if lo true n k p q = p
IsOrdered-if lo false n k p q = q

IsOrdered-write : (lo f : ℕ) (hooked : Bool) → lo < 8 → IsOrdered lo (write_locks f hooked)
unfolding write_locks
IsOrdered-write lo f hooked h =
    IsOrdered-when lo hooked (under_shared (files_lock f) done) (omega arith, tt, tt)

IsOrdered-each :
    (f : ℕ) (hooked : Bool) (appenders : List ℕ) → IsOrdered 6 (append_each f hooked appenders)
unfolding append_each
IsOrdered-each f hooked [] = tt
IsOrdered-each f hooked (a ∷ rest) =
    (omega arith, IsOrdered-write 7 f hooked (omega arith), IsOrdered-each f hooked rest)

IsOrdered-log :
    (lo p f : ℕ) (hooked : Bool) (appenders : List ℕ) (passes : Bool)
    → lo < 6
    → IsOrdered lo (log_locks p f hooked appenders passes)
unfolding log_locks
IsOrdered-log lo p f hooked appenders passes h = (
  omega arith,
  IsOrdered-when 6 passes (append_each f hooked appenders) (IsOrdered-each f hooked appenders),
  tt,
)

module _ (m g f : ℕ) (hooked : Bool) (appenders : List ℕ) where
  IsOrdered-say :
      (lo : ℕ) (passes : Bool) → lo < 6 → IsOrdered lo (say_locks m g f hooked appenders passes)
  unfolding say_locks
  IsOrdered-say lo passes h =
      IsOrdered-when lo passes (log_locks g f hooked appenders passes)
        (IsOrdered-log lo g f hooked appenders passes h)

  IsOrdered-tickle :
      (lo : ℕ) (idle debug : Bool)
      → lo < 6
      → IsOrdered lo (tickle_locks m g f hooked appenders idle debug)
  unfolding tickle_locks
  IsOrdered-tickle lo idle debug h = IsOrdered-when lo idle _ (
      IsOrdered-followed_by lo (say_locks m g f hooked appenders debug) (write_locks f hooked)
        (IsOrdered-say lo debug h) (IsOrdered-write lo f hooked (omega arith)))

  IsOrdered-schedule :
      (lo : ℕ) (w : Wakes) → lo < 3 → IsOrdered lo (schedule_locks m g f hooked appenders w)
  unfolding schedule_locks
  IsOrdered-schedule lo w h = (
    omega arith,
    IsOrdered-when 3 w.was_empty (tickle_locks m g f hooked appenders w.idle w.debug)
        (IsOrdered-tickle 3 w.idle w.debug (omega arith)),
    tt,
  )

  IsOrdered-fire :
      (read write : Bool) (first second : Wakes)
      → IsOrdered 2 (fire_both_locks m g f hooked appenders read write first second)
  unfolding fire_both_locks
  IsOrdered-fire read write first second =
      IsOrdered-followed_by 2 (when read (schedule_locks m g f hooked appenders first))
        (when write (schedule_locks m g f hooked appenders second))
        (IsOrdered-when 2 read (schedule_locks m g f hooked appenders first)
          (IsOrdered-schedule 2 first (omega arith)))
        (IsOrdered-when 2 write (schedule_locks m g f hooked appenders second)
          (IsOrdered-schedule 2 second (omega arith)))

  IsOrdered-add_timer :
      (changed idle debug : Bool)
      → IsOrdered 0 (add_timer_locks m g f hooked appenders changed idle debug)
  unfolding add_timer_locks
  IsOrdered-add_timer changed idle debug = (
    omega arith,
    tt,
    IsOrdered-when 0 changed (tickle_locks m g f hooked appenders idle debug)
        (IsOrdered-tickle 0 idle debug (omega arith)),
  )

  IsOrdered-event :
      (broken fails error debug read write : Bool) (first second : Wakes)
      → IsOrdered 2 (
          followed_by (when broken (say_locks m g f hooked appenders error)) (
            if not read && not write
            then say_locks m g f hooked appenders debug
            else if fails
            then say_locks m g f hooked appenders error
            else fire_both_locks m g f hooked appenders read write first second))
  IsOrdered-event broken fails error debug read write first second =
      IsOrdered-followed_by 2 (when broken (say_locks m g f hooked appenders error)) _
        (IsOrdered-when 2 broken (say_locks m g f hooked appenders error)
          (IsOrdered-say 2 error (omega arith)))
        (IsOrdered-if 2 (not read && not write) (say_locks m g f hooked appenders debug) _
          (IsOrdered-say 2 debug (omega arith))
          (IsOrdered-if 2 fails (say_locks m g f hooked appenders error) _
            (IsOrdered-say 2 error (omega arith)) (IsOrdered-fire read write first second)))

  IsOrdered-op : (o : LockCall) → IsOrdered 0 (locks_of m g f hooked appenders o)
  unfolding locks_of should_stop_locks refresh_locks expired_locks add_event_locks del_event_locks
      cancel_event_locks cancel_all_locks schedule_event_locks get_locks get_logger_locks
  IsOrdered-op (schedules w) = IsOrdered-schedule 0 w (omega arith)
  IsOrdered-op (tickles idle debug) = IsOrdered-tickle 0 idle debug (omega arith)
  IsOrdered-op locks_tasks = (omega arith, tt, tt)
  IsOrdered-op should_stops = (omega arith, (omega arith, tt, tt), tt)
  IsOrdered-op (adds_timer changed idle debug) = IsOrdered-add_timer changed idle debug
  IsOrdered-op (refreshes hit changed idle debug) = (
    omega arith,
    tt,
    IsOrdered-when 0 hit (add_timer_locks m g f hooked appenders changed idle debug)
        (IsOrdered-add_timer changed idle debug),
  )
  IsOrdered-op cancels = (omega arith, tt, tt)
  IsOrdered-op reads_timers = (omega arith, tt, tt)
  IsOrdered-op (expires true) = (omega arith, tt, tt)
  IsOrdered-op (expires false) = (omega arith, tt, (omega arith, tt, tt))
  IsOrdered-op (adds_event c need_resize) =
      (omega arith, tt, (omega arith, tt, (omega arith, tt, tt)))
  IsOrdered-op (dels_event c true) = (omega arith, tt, (omega arith, tt, tt))
  IsOrdered-op (dels_event c false) = (omega arith, tt, tt)
  IsOrdered-op (cancels_event c true registered w) = (
    omega arith,
    tt,
    (
      omega arith,
      IsOrdered-when 2 registered (schedule_locks m g f hooked appenders w)
          (IsOrdered-schedule 2 w (omega arith)),
      tt,
    ),
  )
  IsOrdered-op (cancels_event c false registered w) = (omega arith, tt, tt)
  IsOrdered-op (cancels_all c true fails error read write first second) = (
    omega arith,
    tt,
    (
      omega arith,
      IsOrdered-if 2 fails (say_locks m g f hooked appenders error) _
          (IsOrdered-say 2 error (omega arith)) (IsOrdered-fire read write first second),
      tt,
    ),
  )
  IsOrdered-op (cancels_all c false fails error read write first second) = (omega arith, tt, tt)
  IsOrdered-op (schedules_event c broken fails error debug read write first second) =
      (omega arith, IsOrdered-event broken fails error debug read write first second, tt)
  IsOrdered-op (gets_fd true) = (omega arith, tt, (omega arith, tt, tt))
  IsOrdered-op (gets_fd false) = (omega arith, tt, tt)
  IsOrdered-op dels_fd = (omega arith, tt, tt)
  IsOrdered-op (gets_logger r p true) = (omega arith, tt, tt)
  IsOrdered-op (gets_logger r p false) = (omega arith, (omega arith, tt, tt), tt)
  IsOrdered-op (logs p as_of passes) = IsOrdered-log 0 p f hooked as_of passes (omega arith)
  IsOrdered-op (changes_logger p) = (omega arith, tt, tt)
  IsOrdered-op (changes_appender a) = (omega arith, tt, tt)

pub IsOrdered-all :
    (g f : ℕ) (appenders : List ℕ) (os : List (ℕ × Bool × LockCall))
    → IsOrdered 0 (locks_of_all g f appenders os)
unfolding locks_of_all
IsOrdered-all g f appenders [] = tt
IsOrdered-all g f appenders ((m, hooked, o) ∷ os) =
    IsOrdered-followed_by 0 (locks_of m g f hooked appenders o) (locks_of_all g f appenders os)
      (IsOrdered-op m g f hooked appenders o) (IsOrdered-all g f appenders os)
