-- ===== src/Syscall.antt =====
-- kernel/src/syscall/dispatch.rs: the state that the handlers work on, their arguments and replies.
-- Each handler is a function from the state to the state and a reply; `none` is a panic. The statics
-- of the kernel are the fields of the state. User memory is a byte at each address.
pub mod Errno
pub mod Utf8
pub mod Locks
pub mod Channels
pub mod Devices
pub mod Files
pub mod Paths
pub mod Users
pub mod Buffers
pub mod Overruns
pub mod Transfers
pub mod Reads
pub mod Modes
pub mod Memory
mod Tests
pub mod Privileges
pub mod Tasks
use alaphi_os.Base.{
  ℕ, zero, suc, ◌+◌, Bool, Option, none, some, List, [], ◌∷◌, ◌==◌, ◌||◌, if◌then◌else◌, ltb, ◌&&◌,
}
use alaphi_os.Base.Map.{Map}
use alaphi_os.Base.Bytes.{Bytes}
use alaphi_os.Fs.Volume.{LogicalFs}
use alaphi_os.Io.Console.{Console}
use alaphi_os.Io.Device.{DeviceTable}
use alaphi_os.Ipc.MsgQueue.{MsgQueue}
use alaphi_os.Ipc.Pipe.{Pipe}
use alaphi_os.Ipc.Shm.{SharedMem}
use alaphi_os.Ipc.Table.{IpcTable}
use alaphi_os.Lifecycle.{System, registry_get, current_tid, current_pid}
use alaphi_os.Process.Task.{Ids}
use alaphi_os.Scheduler.{Arc}
use alaphi_os.Security.{RbacAccessControl}
use alaphi_os.Sync.Table.{ResourceTable}
use alaphi_os.Syscall.Errno.{ℤ}
use alaphi_os.Syscall.Utf8.{from_utf8}

-- `Arc<dyn IpcChannel>`
pub data Channel : Type 0 where
  pipe : Pipe → Channel
  queue : MsgQueue → Channel
  shared : SharedMem → Channel

-- `D` is the state of the mounted volume.
pub record Kernel (D : Type 0) : Type 0 where
  pub system : System
  pub ids : Ids
  pub fs : LogicalFs D
  pub channels : IpcTable Channel
  pub shm_registry : Map Bytes SharedMem
  pub resources : ResourceTable
  pub control : RbacAccessControl
  pub devices : DeviceTable
  pub console : Console
  pub scancodes : Bytes
  pub serial : Bytes
  pub memory : ℕ → ℕ

-- rdi, rsi, rdx and r10
pub record Args : Type 0 where
  pub arg0 : ℕ
  pub arg1 : ℕ
  pub arg2 : ℕ
  pub arg3 : ℕ

-- What a call that waits goes on with.
pub data Waiting : Type 0 where
  locks awaits : ℕ → Waiting
  sends : ℕ → Bytes → Waiting
  receives : ℕ → ℕ → Waiting
  waits_pid waits_tid : ℕ → Waiting

-- A call returns, waits, or spins for ever on a lock that it holds itself.
pub data Reply : Type 0 where
  returns : ℤ → Reply
  blocks : Waiting → Reply
  spins : Reply

abbrev pub Call : Type 0 → Type 0
Call D = Kernel D → Option (Kernel D × Reply)

unfoldable pub answer : {D : Type 0} → ℤ → Call D
answer v k = some (k, returns v)

-- `None => e, Some(a) => …`
unfoldable pub or_answer : {D A : Type 0} → ℤ → (A → Call D) → Option A → Call D
or_answer e f none = answer e
or_answer e f (some a) = f a

-- `.expect(…)`
unfoldable pub or_panic : {D A : Type 0} → (A → Call D) → Option A → Call D
or_panic f none k = none
or_panic f (some a) k = f a k

-- `slice::from_raw_parts`
unfoldable pub from_raw_parts : (ℕ → ℕ) → ℕ → ℕ → Bytes
from_raw_parts memory ptr zero = []
from_raw_parts memory ptr (suc len) = memory ptr ∷ from_raw_parts memory (ptr + 1) len

-- a write of bytes from an address on
unfoldable pub copy_to : (ℕ → ℕ) → ℕ → Bytes → ℕ → ℕ
copy_to memory ptr [] a = memory a
copy_to memory ptr (b ∷ bytes) a = if a == ptr then b else copy_to memory (ptr + 1) bytes a

unfoldable pub str_from_user : (ℕ → ℕ) → ℕ → ℕ → Option Bytes
str_from_user memory ptr len =
    if ptr == 0 || len == 0 then none else from_utf8 (from_raw_parts memory ptr len)

-- `len > 0 && buf_ptr.is_null()`
unfoldable pub is_bad_buffer : ℕ → ℕ → Bool
is_bad_buffer ptr len = ltb 0 len && ptr == 0

unfoldable pub uid_gid_of : System → Option Arc → ℕ × ℕ
uid_gid_of s none = (0, 0)
uid_gid_of s (some a) = ((s.heap a).uid, (s.heap a).gid)

-- `scheduler::current_tid()` and what follows it; without a current task it panics.
unfoldable pub with_tid : {D : Type 0} → (ℕ → Call D) → Call D
with_tid f k = or_panic f (current_tid k.system) k

unfoldable pub with_pid : {D : Type 0} → (ℕ → Call D) → Call D
with_pid f k = or_panic f (current_pid k.system) k

-- `current_uid_gid()`
unfoldable pub with_uid_gid : {D : Type 0} → (ℕ → ℕ → Call D) → Call D
with_uid_gid f =
    with_tid
      λ tid k. let (uid, gid) = uid_gid_of k.system (registry_get k.system.table tid) in f uid gid k
