-- ===== src/Thread/Tests.antt =====
-- The start of a thread named "io" with the id 42.
use eva.Base.{ℕ, ◌+◌, ◌≤◌, true, ◌≡◌, refl, pos, codes, [], ◌∷◌}
use eva.Thread.Semaphore.{call_all, waits, notifies, blocks}
use eva.Thread.{waiting, returned, Child, Start, new_thread, Step, create, Reach, begun, then_step}
use eva.Thread.Handshake.{named_as, is_regular, Regular, work, handshake_lem}

abbrev created : Start
unfolding new_thread
created = record (new_thread (codes "io")) { parent = waiting; child = Child.entered }

created-Reach : Reach 42 (codes "io") created
unfolding new_thread
created-Reach = then_step begun (create (new_thread (codes "io")) refl)

handshake_example :
    ((created.parent ≡ returned)
      → (created.id ≡ pos 42)
        × (created.name ≡ named_as (codes "io"))
        × (created.local_name ≡ named_as (codes "io")))
    × ((created.parent ≡ waiting) → (t : Start) × (st : Step 42 created t) × (is_regular st ≡ true))
    × ((k : ℕ) (t : Start) → Regular 42 created k t → k + work t ≤ work created)
handshake_example = handshake_lem 42 (codes "io") created created-Reach

wait_without_notify : call_all (notifies ∷ waits ∷ waits ∷ []) (record { count = 0 }) ≡ blocks
unfolding call_all
wait_without_notify = refl
