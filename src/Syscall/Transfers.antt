-- ===== src/Syscall/Transfers.antt =====
-- kernel/src/syscall/dispatch.rs: bytes that go through a pipe from buffer to buffer.
use alaphi_os.Base.{
  ℕ, suc, ◌≤◌, ◌<◌, ◌≡◌, ◌≢◌, ◌∙◌, sym, refl, ap, min, false, some, [], ◌∷◌, length, take, drop,
  append-nil, take_left, drop_left, arith, ◌==◌, ==_refl,
}
use alaphi_os.Base.Map.{get-insert_here, nat_key}
use alaphi_os.Base.Bytes.{Bytes}
use alaphi_os.Ipc.Channel.{Outcome}
use alaphi_os.Ipc.Channel
use alaphi_os.Ipc.Pipe.{Pipe, send_loop}
use alaphi_os.Ipc.Pipe
use alaphi_os.Ipc.Table
use alaphi_os.Syscall.{
  Kernel, Args, Call, Reply, returns, answer, or_answer, copy_to, from_raw_parts, is_bad_buffer,
  pipe,
}
use alaphi_os.Syscall as Kernels
use alaphi_os.Syscall.Buffers.{from_raw_parts-copy_to, length-from_raw_parts}
use alaphi_os.Syscall.Channels.{
  recv, received, send, sent, sent_to, sent_on_pipe, sys_read_channel, sys_write_channel,
  with_channel, put_channel,
}
use alaphi_os.Syscall.Errno.{pos, as_isize, ebadf}

take_all : (xs : Bytes) (n : ℕ) → n ≡ length xs → take n xs ≡ xs
take_all xs n h = ap (take n) (sym (append-nil xs)) ∙ take_left xs [] n h

drop_all : (xs : Bytes) (n : ℕ) → n ≡ length xs → drop n xs ≡ []
drop_all xs n h = ap (drop n) (sym (append-nil xs)) ∙ drop_left xs [] n h

abbrev holding : Bytes → Pipe
holding bytes = record { buf = bytes; is_closed = false }

-- An empty pipe takes up to 4096 bytes in one round.
send_at_once :
    (bytes : Bytes)
    → length bytes ≤ 4096
    → Pipe.send bytes Pipe.new ≡ some (holding bytes, Channel.returns tt)
unfolding Pipe.send send_loop Pipe.new
send_at_once [] h = refl
send_at_once (b ∷ rest) h =
    let n : min (suc (length rest)) 4096 ≡ suc (length rest) = omega arith in
    rw (n, take_all rest (length rest) refl, drop_all rest (length rest) refl) refl

recv_at_once :
    (bytes : Bytes) (n : ℕ)
    → length bytes ≡ n
    → 0 < n
    → Pipe.recv n (holding bytes) ≡ (holding [], Channel.returns bytes)
unfolding Pipe.recv
recv_at_once bytes n h nonempty =
    let some_bytes : (length bytes == 0) ≡ false = ground (arith, h, nonempty) in
    let m : min n (length bytes) ≡ n = omega (arith, h) in
    rw (some_bytes, m, take_all bytes n (sym h), drop_all bytes n (sym h)) refl

not_bad : (ptr n : ℕ) → ptr ≢ 0 → is_bad_buffer ptr n ≡ false
unfolding is_bad_buffer
not_bad ptr n h = ground (arith, h)

module _ {D : Type 0} (k : Kernel D) (handle : ℕ) where
  -- the kernel once the pipe holds the bytes
  filled : Bytes → Kernel D
  filled bytes = put_channel k handle (pipe (holding bytes))

  write_call : (a : Args) → Kernels.Channel → Call D
  write_call a ch k = sent_to a.arg0 (send (from_raw_parts k.memory a.arg1 a.arg2) ch) k

  sys_write_channel-filled :
      (ptr n x : ℕ)
      → Table.get k.channels handle ≡ some (pipe Pipe.new)
      → ptr ≢ 0
      → n ≤ 4096
      → sys_write_channel (record { arg0 = handle; arg1 = ptr; arg2 = n; arg3 = x }) k
        ≡ some (filled (from_raw_parts k.memory ptr n), returns (pos 0))
  unfolding sys_write_channel with_channel or_answer send sent_to sent_on_pipe sent answer filled
      write_call
  sys_write_channel-filled ptr n x found nonnull short =
      let a : Args = record { arg0 = handle; arg1 = ptr; arg2 = n; arg3 = x } in
      let bytes = from_raw_parts k.memory ptr n in
      let room : length bytes ≤ 4096 = omega (arith, length-from_raw_parts k.memory ptr n) in
      rw (not_bad ptr n nonnull) (
        ap (λ o. or_answer ebadf (write_call a) o k) found
        ∙ ap (λ s. sent_to handle (sent_on_pipe s) k) (send_at_once bytes room))

  filled-get :
      (bytes : Bytes) → Table.get (filled bytes).channels handle ≡ some (pipe (holding bytes))
  unfolding filled Table.get put_channel
  filled-get bytes =
      get-insert_here handle handle (pipe (holding bytes)) k.channels.map (==_refl handle)

  read_call : (a : Args) → Kernels.Channel → Call D
  read_call a ch k =
      let (ch', r) = recv a.arg2 ch in received a.arg0 a.arg1 r (put_channel k a.arg0 ch')

  drained : Bytes → ℕ → Kernel D
  drained bytes ptr =
      let k' = put_channel (filled bytes) handle (pipe (holding [])) in
      record k' { memory = copy_to k'.memory ptr bytes }

  sys_read_channel-drained :
      (bytes : Bytes) (ptr n x : ℕ)
      → ptr ≢ 0
      → length bytes ≡ n
      → 0 < n
      → sys_read_channel (record { arg0 = handle; arg1 = ptr; arg2 = n; arg3 = x }) (filled bytes)
        ≡ some (drained bytes ptr, returns (as_isize n))
  unfolding sys_read_channel with_channel or_answer recv received answer drained read_call
  sys_read_channel-drained bytes ptr n x nonnull size nonempty =
      let a : Args = record { arg0 = handle; arg1 = ptr; arg2 = n; arg3 = x } in
      rw (not_bad ptr n nonnull) (
        ap (λ o. or_answer ebadf (read_call a) o (filled bytes)) (filled-get bytes)
        ∙ ap (λ r. received handle ptr r.1 (put_channel (filled bytes) handle (pipe r.0)))
            (recv_at_once bytes n size nonempty)
        ∙ ap (λ m. some (drained bytes ptr, returns (as_isize m))) size)

-- Bytes go from buffer to buffer: when a handle names an empty open pipe, `SYS_PIPE_WRITE` of 1 to
-- 4096 bytes from one buffer and then `SYS_PIPE_READ` of as many into another both return, with 0
-- and with the number of bytes, and the second buffer then holds what the first one held.
pub pipe_carries_buffer :
    {D : Type 0} (k : Kernel D) (handle from to n x : ℕ)
    → Table.get k.channels handle ≡ some (pipe Pipe.new)
    → from ≢ 0
    → to ≢ 0
    → 0 < n
    → n ≤ 4096
    → (k' k'' : Kernel D) × (sys_write_channel
          (record { arg0 = handle; arg1 = from; arg2 = n; arg3 = x })
          k
        ≡ some (k', returns (pos 0)))
      × (sys_read_channel (record { arg0 = handle; arg1 = to; arg2 = n; arg3 = x }) k'
          ≡ some (k'', returns (as_isize n)))
      × (from_raw_parts k''.memory to n ≡ from_raw_parts k.memory from n)
unfolding drained
pipe_carries_buffer k handle from to n x found nonnull nonnull' nonempty short =
    let bytes = from_raw_parts k.memory from n in
    let size = length-from_raw_parts k.memory from n in
    (
      filled k handle bytes,
      drained k handle bytes to,
      sys_write_channel-filled k handle from n x found nonnull short,
      sys_read_channel-drained k handle bytes to n x nonnull' size nonempty,
      ap (from_raw_parts (drained k handle bytes to).memory to) (sym size)
          ∙ from_raw_parts-copy_to _ to bytes,
    )
