-- ===== src/Process/Signal/Tests.antt =====
-- kernel/src/process/signal.rs at concrete inputs.
use alaphi_os.Base.{◌≡◌, refl, some, none, replicate, arith}
use alaphi_os.Process.Signal.{
  SignalState, new, set_pending, clear_pending, set_handler, next_pending, trailing_zeros,
}
use alaphi_os.Process.Signal.Pending.{IsLowest, next_pending-IsLowest}

-- SIGTERM (15) and 3 pending, a handler for 3.
abbrev two_pending : SignalState
two_pending = set_handler (set_pending (set_pending new 15) 3) 3 0x4000

two_pending_next :
    (next_pending two_pending ≡ some (3, 0x4000))
    × (next_pending (clear_pending two_pending 3) ≡ some (15, 0))
    × (next_pending (clear_pending (clear_pending two_pending 3) 15) ≡ none)
    × (set_pending new 32 ≡ new)
unfolding new set_pending clear_pending set_handler next_pending trailing_zeros
two_pending_next = (refl, refl, refl, refl)

abbrev at_three : SignalState
at_three = record { pending = 8; handlers = replicate 32 0 }

next_pending-IsLowest_example : IsLowest at_three (next_pending at_three)
next_pending-IsLowest_example = next_pending-IsLowest at_three (omega arith)
