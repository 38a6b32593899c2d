-- ===== src/Process/Signal.antt =====
-- kernel/src/process/signal.rs, `SignalState`: a `u32` of pending bits and 32 handlers.
-- `deliver_pending_signal` writes through user pointers and stays outside.
pub mod Pending
mod Tests
use Prim.Native.Nat.{bit_and, bit_or}
use alaphi_os.Base.{
  ℕ, zero, suc, ◌+◌, ◌^◌, ◌/◌, ◌%◌, Bool, true, false, Option, none, some, List, ltb, ◌==◌,
  if◌then◌else◌, get_or, set, replicate,
}
use alaphi_os.Base.Bits.{bit_not}

abbrev pub max_signals : ℕ
max_signals = 32

pub record SignalState : Type 0 where
  pub pending : ℕ
  pub handlers : List ℕ

unfoldable pub new : SignalState
new = record { pending = 0; handlers = replicate max_signals 0 }

unfoldable pub set_pending : SignalState → ℕ → SignalState
set_pending s signum =
    if ltb signum max_signals then record s { pending = bit_or s.pending (2 ^ signum) } else s

unfoldable pub clear_pending : SignalState → ℕ → SignalState
clear_pending s signum =
    if ltb signum max_signals
    then record s { pending = bit_and s.pending (bit_not 32 (2 ^ signum)) }
    else s

unfoldable pub set_handler : SignalState → ℕ → ℕ → SignalState
set_handler s signum handler =
    if ltb signum max_signals then record s { handlers = set s.handlers signum handler } else s

-- `u32::trailing_zeros`, over the `n` bits left: `n` if they are all 0.
unfoldable pub trailing_zeros : ℕ → ℕ → ℕ
trailing_zeros zero a = 0
trailing_zeros (suc n) a = let rest = trailing_zeros n (a / 2) in if a % 2 == 0 then suc rest else 0

unfoldable pub next_pending : SignalState → Option (ℕ × ℕ)
next_pending s =
    let signum = trailing_zeros 32 s.pending in
    if s.pending == 0 then none else some (signum, get_or s.handlers signum 0)
