-- ===== src/Ipc/Pipe.antt =====
-- kernel/src/ipc/pipe.rs: a byte pipe. The wake-ups of the condition variables are not part of the
-- state: a section can follow whenever the lock is free.
pub mod Sections
pub mod Stream
use alaphi_os.Base.{
  ℕ, zero, suc, ◌+◌, ◌-◌, Bool, true, false, Option, none, some, List, [], ◌∷◌, ◌++◌, ◌==◌, min,
  length, take, drop, if◌then◌else◌,
}
use alaphi_os.Base.Bytes.{Bytes}
use alaphi_os.Ipc.Channel.{IpcError, closed, Outcome, returns, fails, waits}

pub record Pipe : Type 0 where
  pub buf : Bytes
  pub is_closed : Bool

abbrev pub pipe_buf : ℕ
pipe_buf = 4096

unfoldable pub new : Pipe
new = record { buf = []; is_closed = false }

-- The loop of `send` on the bytes not yet written, until it returns or waits; `none` is a lack of
-- fuel. Nobody closes the pipe in between: `close` takes the lock of the buffer.
unfoldable pub send_loop : ℕ → Bytes → Pipe → Option (Pipe × Outcome (Unit {0}) Bytes)
send_loop zero rest p = none
send_loop (suc n) [] p = some (p, returns tt)
send_loop (suc n) (b ∷ rest) p =
    let data_left = b ∷ rest in
    let available = pipe_buf - length p.buf in
    let to_write = min (length data_left) available in
    let next =
      send_loop n (drop to_write data_left) (record p { buf = p.buf ++ take to_write data_left }) in
    if p.is_closed
    then some (p, fails closed)
    else (if available == 0 then some (p, waits data_left) else next)

-- At most one round per byte, and the round that ends.
unfoldable pub send : Bytes → Pipe → Option (Pipe × Outcome (Unit {0}) Bytes)
send rest p = send_loop (suc (length rest)) rest p

-- The bytes that `recv` writes to the caller's buffer of `n` bytes.
unfoldable pub recv : ℕ → Pipe → Pipe × Outcome Bytes ℕ
recv n p =
    let to_read = min n (length p.buf) in
    if length p.buf == 0
    then (if p.is_closed then (p, returns []) else (p, waits n))
    else (record p { buf = drop to_read p.buf }, returns (take to_read p.buf))

unfoldable pub close : Pipe → Pipe
close p = record p { is_closed = true }
