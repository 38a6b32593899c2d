-- ===== src/Ipc/Channel.antt =====
-- kernel/src/ipc/channel.rs: the errors of a channel. A call that waits on a condition variable gives
-- up the lock and goes on later, so a call is a sequence of sections that hold the lock; the outcome
-- of a section says whether it waits.

pub data IpcError : Type 0 where
  closed would_block too_large : IpcError

-- `R` is what the call returns, `W` what a waiting call goes on with.
pub data Outcome (R W : Type 0) : Type 0 where
  returns : R → Outcome R W
  fails : IpcError → Outcome R W
  waits : W → Outcome R W
