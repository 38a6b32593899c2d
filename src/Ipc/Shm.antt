-- ===== src/Ipc/Shm.antt =====
-- kernel/src/ipc/shm.rs: shared memory as a channel, and the three kinds of channel of a table.
use alaphi_os.Base.{ℕ, replicate}
use alaphi_os.Base.Bytes.{Bytes}
use alaphi_os.Ipc.Channel.{would_block, Outcome, fails}

pub record SharedMem : Type 0 where
  pub name : Bytes
  pub bytes : Bytes

unfoldable pub new : Bytes → ℕ → SharedMem
new name size = record { name = name; bytes = replicate size 0 }

unfoldable pub send : Bytes → SharedMem → SharedMem × Outcome (Unit {0}) Bytes
send payload m = (m, fails would_block)

unfoldable pub recv : ℕ → SharedMem → SharedMem × Outcome Bytes ℕ
recv n m = (m, fails would_block)

unfoldable pub close : SharedMem → SharedMem
close m = m
