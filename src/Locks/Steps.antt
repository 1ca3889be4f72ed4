-- ===== src/Locks/Steps.antt =====
-- How many steps threads that go through sections under locks have left.
use eva.Base.{ℕ, suc, ◌+◌, ◌≡◌, List, [], ◌∷◌, arith, sum_below, sum_below-update}
use eva.Locks.{Nest, done, section}
use eva.Locks.Threads.{Frame, LockUser, Step, enters, leaves, Reach, begun, then_step}

-- Two steps for each section that a thread has before it, and one for each that it is in.
abbrev pub steps_of : Nest → ℕ
steps_of done = 0
steps_of (section shared l body rest) = 2 + steps_of body + steps_of rest

abbrev pub steps_in : List Frame → ℕ
steps_in [] = 0
steps_in (f ∷ fs) = 1 + steps_of f.rest + steps_in fs

abbrev pub steps_left : LockUser → ℕ
steps_left t = steps_of t.now + steps_in t.frames

Step-steps_left :
    {n : ℕ} {ts us : ℕ → LockUser}
    → Step n ts us
    → sum_below steps_left n ts ≡ suc (sum_below steps_left n us)
Step-steps_left {n} {ts} (enters i shared l body rest lt e h) =
    let now : steps_of (ts i).now ≡ 2 + steps_of body + steps_of rest = rw e in
    omega (arith, sum_below-update steps_left n ts i _ lt)
Step-steps_left {n} {ts} (leaves i f fs lt e h) =
    let now : steps_of (ts i).now ≡ 0 = rw e in
    let frames : steps_in (ts i).frames ≡ 1 + steps_of f.rest + steps_in fs = rw h in
    omega (arith, sum_below-update steps_left n ts i (record { now = f.rest; frames = fs }) lt)

pub Reach-steps_left :
    {n : ℕ} {ts : ℕ → LockUser} {k : ℕ} {us : ℕ → LockUser}
    → Reach n ts k us
    → k + sum_below steps_left n us ≡ sum_below steps_left n ts
Reach-steps_left (begun e) = rw e (omega arith)
Reach-steps_left (then_step r st e) = omega (arith, Reach-steps_left r, Step-steps_left st)
