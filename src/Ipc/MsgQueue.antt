-- ===== src/Ipc/MsgQueue.antt =====
-- kernel/src/ipc/msg_queue.rs: a queue of messages of one size. As for a pipe, a call is a sequence of
-- sections that hold the lock.
pub mod Fifo
use alaphi_os.Base.{
  ℕ, ◌-◌, Bool, true, false, List, [], ◌∷◌, ◌++◌, ltb, min, length, take, replicate, if◌then◌else◌,
}
use alaphi_os.Base.Bytes.{Bytes}
use alaphi_os.Ipc.Channel.{IpcError, closed, too_large, Outcome, returns, fails, waits}

abbrev pub msg_size : ℕ
msg_size = 256

abbrev pub max_messages : ℕ
max_messages = 128

pub record MsgQueue : Type 0 where
  pub queue : List Bytes
  pub is_closed : Bool

unfoldable pub new : MsgQueue
new = record { queue = []; is_closed = false }

-- `[0u8; MSG_SIZE]` with the payload copied over its start
unfoldable pub padded : Bytes → Bytes
padded payload = payload ++ replicate (msg_size - length payload) 0

-- A call that waits goes on with the payload.
unfoldable pub send : Bytes → MsgQueue → MsgQueue × Outcome (Unit {0}) Bytes
send payload q =
    if ltb msg_size (length payload)
    then (q, fails too_large)
    else (if q.is_closed
        then (q, fails closed)
        else (if ltb (length q.queue) max_messages
            then (record q { queue = q.queue ++ padded payload ∷ [] }, returns tt)
            else (q, waits payload)))

unfoldable pub recv_from : ℕ → List Bytes → MsgQueue → MsgQueue × Outcome Bytes ℕ
recv_from n [] q = if q.is_closed then (q, returns []) else (q, waits n)
recv_from n (msg ∷ rest) q = (record q { queue = rest }, returns (take (min n msg_size) msg))

unfoldable pub recv : ℕ → MsgQueue → MsgQueue × Outcome Bytes ℕ
recv n q = recv_from n q.queue q

unfoldable pub close : MsgQueue → MsgQueue
close q = record q { is_closed = true }
