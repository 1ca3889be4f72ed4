-- ===== src/Mutex/Tests.antt =====
-- The locks of src/mutex.h on concrete inputs.
use eva.Base.{◌≡◌, true, false, [], ◌∷◌, none, some, if◌then◌else◌}
use eva.Mutex.{lock, unlock, read_guard, write_guard}
use eva.Mutex.Guards.{calls_lock, write_locked, guards_lem}

guards_example :
    (read_guard true (unlock ∷ lock ∷ []) (record { readers = 2; writer = false })
      ≡ some (record { readers = 2; writer = false }))
    × (write_guard true true (unlock ∷ lock ∷ []) (record { readers = 0; writer = false })
        ≡ some (record { readers = 0; writer = false }))
    × (write_guard true false (unlock ∷ lock ∷ []) (record { readers = 0; writer = false }) ≡ (
        if calls_lock (unlock ∷ lock ∷ [])
        then (if true then some (record { readers = 0; writer = false }) else none)
        else some write_locked))
guards_example = guards_lem true (unlock ∷ lock ∷ []) 2
