-- ===== src/Syscall/Channels.antt =====
-- kernel/src/syscall/dispatch.rs: the calls on channels. `String::from_utf8_lossy` is a parameter.
use alaphi_os.Base.{ℕ, Option, none, some, length, if◌then◌else◌, ◌==◌, ◌||◌}
use alaphi_os.Base.Map.{nat_key}
use alaphi_os.Base.Map
use alaphi_os.Base.Bytes.{Bytes, bytes_key}
use alaphi_os.Ipc.Channel.{Outcome}
use alaphi_os.Ipc.Channel
use alaphi_os.Ipc.MsgQueue
use alaphi_os.Ipc.Pipe
use alaphi_os.Ipc.Shm
use alaphi_os.Ipc.Shm.{SharedMem}
use alaphi_os.Ipc.Table.{insert, get, remove}
use alaphi_os.Syscall.{
  Kernel, Args, Call, Reply, returns, blocks, spins, sends, receives, answer, or_answer,
  from_raw_parts, copy_to, is_bad_buffer, pipe, queue, shared,
}
use alaphi_os.Syscall as Kernels
use alaphi_os.Syscall.Errno.{pos, ebadf, efault, ipc_err, as_isize}

-- `IPC_TABLE.lock().insert(…)`
unfoldable pub add_channel : {D : Type 0} → Kernels.Channel → Call D
add_channel ch k = elim (insert k.channels ch) [
  | none ↦ none
  | some (handle, channels) ↦ some (record k { channels = channels }, returns (as_isize handle))
]

unfoldable pub sys_pipe_create : {D : Type 0} → Call D
sys_pipe_create = add_channel (pipe Pipe.new)

-- `ch.close()`, by the kind of the channel
unfoldable pub close : Kernels.Channel → Kernels.Channel
close (pipe p) = pipe (Pipe.close p)
close (queue q) = queue (MsgQueue.close q)
close (shared m) = shared (Shm.close m)

unfoldable pub put_channel : {D : Type 0} → Kernel D → ℕ → Kernels.Channel → Kernel D
put_channel k handle ch =
    let t = k.channels in record k { channels = record t { map = Map.insert handle ch t.map } }

unfoldable pub with_channel : {D : Type 0} → ℕ → (Kernels.Channel → Call D) → Call D
with_channel handle f k = or_answer ebadf f (get k.channels handle) k

-- The channel is closed, which wakes its waiters. The guard of the `if let` holds `IPC_TABLE` to the
-- end of the block, so the second `lock` of it, which is to give up the handle, never returns.
unfoldable pub sys_pipe_close : {D : Type 0} → Args → Call D
sys_pipe_close a = with_channel a.arg0 λ ch k. some (put_channel k a.arg0 (close ch), spins)

-- `ch.recv(slice)` on a buffer of `len` bytes
unfoldable pub recv : ℕ → Kernels.Channel → Kernels.Channel × Outcome Bytes ℕ
recv len (pipe p) = let (p', r) = Pipe.recv len p in (pipe p', r)
recv len (queue q) = let (q', r) = MsgQueue.recv len q in (queue q', r)
recv len (shared m) = let (m', r) = Shm.recv len m in (shared m', r)

-- The end of a read: the bytes go to the buffer at `ptr`. A read that waits, like a write, still holds
-- `IPC_TABLE` and keeps preemption off, by the guard of the `if let`; nothing here says that it goes
-- on.
unfoldable pub received : {D : Type 0} → ℕ → ℕ → Outcome Bytes ℕ → Call D
received handle ptr (Channel.returns bytes) k =
    answer (as_isize (length bytes)) (record k { memory = copy_to k.memory ptr bytes })
received handle ptr (Channel.fails e) k = answer (ipc_err e) k
received handle ptr (Channel.waits n) k = some (k, blocks (receives handle n))

unfoldable pub sys_read_channel : {D : Type 0} → Args → Call D
sys_read_channel a =
    if is_bad_buffer a.arg1 a.arg2
    then answer efault
    else with_channel a.arg0
        λ ch k. let (ch', r) = recv a.arg2 ch in received a.arg0 a.arg1 r (put_channel k a.arg0 ch')

abbrev pub Sent : Type 0
Sent = Option (Kernels.Channel × Outcome (Unit {0}) Bytes)

unfoldable pub sent_on_pipe : Option (Pipe.Pipe × Outcome (Unit {0}) Bytes) → Sent
sent_on_pipe none = none
sent_on_pipe (some (p, r)) = some (pipe p, r)

-- `ch.send(slice)`; `none` is a lack of fuel in the loop of a pipe.
unfoldable pub send : Bytes → Kernels.Channel → Sent
send payload (pipe p) = sent_on_pipe (Pipe.send payload p)
send payload (queue q) = let (q', r) = MsgQueue.send payload q in some (queue q', r)
send payload (shared m) = let (m', r) = Shm.send payload m in some (shared m', r)

unfoldable pub sent : {D : Type 0} → ℕ → Outcome (Unit {0}) Bytes → Call D
sent handle (Channel.returns _) k = answer (pos 0) k
sent handle (Channel.fails e) k = answer (ipc_err e) k
sent handle (Channel.waits rest) k = some (k, blocks (sends handle rest))

unfoldable pub sent_to : {D : Type 0} → ℕ → Sent → Call D
sent_to handle none k = none
sent_to handle (some (ch, r)) k = sent handle r (put_channel k handle ch)

unfoldable pub sys_write_channel : {D : Type 0} → Args → Call D
sys_write_channel a =
    if is_bad_buffer a.arg1 a.arg2
    then answer efault
    else with_channel a.arg0
        λ ch k. sent_to a.arg0 (send (from_raw_parts k.memory a.arg1 a.arg2) ch) k

-- `registry.entry(name.clone()).or_insert_with(…)`
unfoldable pub entry_or_new : Bytes → ℕ → Option SharedMem → SharedMem
entry_or_new name size none = Shm.new name size
entry_or_new name size (some m) = m

module _ (from_utf8_lossy : Bytes → Bytes) where
  unfoldable pub sys_shm_open : {D : Type 0} → Args → Call D
  sys_shm_open a k =
      let name = from_utf8_lossy (from_raw_parts k.memory a.arg0 a.arg1) in
      let m = entry_or_new name a.arg2 (Map.get name k.shm_registry) in
      if a.arg0 == 0 || a.arg1 == 0
      then answer efault k
      else add_channel (shared m) (record k { shm_registry = Map.insert name m k.shm_registry })

-- Any handle is given up, whatever it names.
unfoldable pub sys_shm_close : {D : Type 0} → Args → Call D
sys_shm_close a k = answer (pos 0) (record k { channels = remove k.channels a.arg0 })
