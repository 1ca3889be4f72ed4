-- ===== src/IoManager/Samples.antt =====
-- An epoll instance that accepts every call, and a caller, for the tests.
use eva.Base.{
  ℕ, ◌≡◌, ◌≢◌, true, false, arith, ap, sym, Option, none, some, ◌==◌, if◌then◌else◌, update,
}
use eva.Fiber.{State}
use eva.IoManager.{Mask, no_bits, Epoll, Op, registers, Caller}

abbrev pub Table : Type 0
Table = ℕ → Option Mask

unfoldable pub take_all : Op → ℕ → Mask → Table → Option Table
take_all op fd m k = some (update k fd (registers op m))

pub take_all_effect :
    (op : Op) (fd : ℕ) (m : Mask) (k k' : Table) (g : ℕ)
    → take_all op fd m k ≡ some k'
    → k' g ≡ (if fd == g then registers op m else k g)
unfolding take_all
take_all_effect op fd m k k' g h =
    let e : update k fd (registers op m) ≡ k' = cc in ap (λ (f : Table). f g) (sym e)

abbrev pub epoll : Epoll
epoll = record { Kernel = Table; ctl = take_all; registered = λ k. k; ctl_effect = take_all_effect }

abbrev pub clean : ℕ → Mask
clean i = no_bits

abbrev pub caller : Caller
caller = record { scheduler = some 1; fiber = 4; state = State.running }

abbrev pub nothing_yet : Table
nothing_yet fd = none

-- The read end of the tickle pipe, descriptor 4, is registered, and nothing else.
abbrev pub only_pipe : Table
only_pipe = update nothing_yet 4 (some (record { rd = true; wr = false }))

pub only_pipe_lem : (i : ℕ) → i ≢ 4 → only_pipe i ≡ none
only_pipe_lem i h = ground (arith, h)
