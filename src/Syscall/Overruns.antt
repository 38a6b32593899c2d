-- ===== src/Syscall/Overruns.antt =====
-- kernel/src/syscall/dispatch.rs: the calls that fill a user buffer stay inside it.
use alaphi_os.Base.{
  ℕ, ◌/◌, ◌≤◌, ◌≡◌, refl, min, Bool, Option, none, some, List, [], ◌∷◌, Result, ok, err, length,
  take, arith, length-take, ◌==◌, inl, inr, Bool-cases,
}
use alaphi_os.Base.Bytes.{Bytes}
use alaphi_os.Fs.Directories
use alaphi_os.Fs.Volume.{FsError, Fat, LogicalFs}
use alaphi_os.Ipc.Channel.{Outcome}
use alaphi_os.Ipc.Channel
use alaphi_os.Ipc.MsgQueue.{MsgQueue, recv_from, msg_size}
use alaphi_os.Ipc.MsgQueue
use alaphi_os.Ipc.Pipe.{Pipe}
use alaphi_os.Ipc.Pipe
use alaphi_os.Ipc.Shm
use alaphi_os.Ipc.Table
use alaphi_os.Syscall.{
  Kernel, Args, Call, Reply, answer, or_answer, or_panic, copy_to, is_bad_buffer, str_from_user,
  pipe, queue, shared,
}
use alaphi_os.Syscall as Kernels
use alaphi_os.Syscall.Channels.{recv, received, sys_read_channel, with_channel, put_channel}
use alaphi_os.Syscall.Buffers.{Outside, copy_to-Outside, length-dirents}
use alaphi_os.Syscall.Errno.{efault, ebadf}
use alaphi_os.Syscall.Files.{done, on_fs, with_path}
use alaphi_os.Syscall.Paths.{dirents, fill, list_into, sys_getdents}

-- A call that returns has changed no byte of user memory outside the buffer.
unfoldable pub Within : {D : Type 0} → Kernel D → ℕ → ℕ → Option (Kernel D × Reply) → Type 0
Within k ptr len none = Unit {0}
Within k ptr len (some (k', _)) = (a : ℕ) → Outside ptr len a → k'.memory a ≡ k.memory a

-- A receive gives no more bytes than the buffer holds.
Fits : ℕ → Outcome Bytes ℕ → Type 0
Fits len (Channel.returns bytes) = length bytes ≤ len
Fits len _ = Unit {0}

recv-Fits : (len : ℕ) (ch : Kernels.Channel) → Fits len (recv len ch).1
unfolding recv Pipe.recv MsgQueue.recv Shm.recv Fits recv_from
recv-Fits len (pipe p) = elim (Bool-cases (length p.buf == 0)) [
  | inl e ↦ elim (Bool-cases p.is_closed) [ inl c ↦ rw (e, c) (omega arith) | inr c ↦ rw (e, c) tt ]
  | inr e ↦ rw e (omega (arith, length-take (min len (length p.buf)) p.buf))
]
recv-Fits len (queue q) = from_queue q.queue
  where
    from_queue : (msgs : List Bytes) → Fits len (recv_from len msgs q).1
    from_queue [] = elim (Bool-cases q.is_closed) [ inl c ↦ rw c (omega arith) | inr c ↦ rw c tt ]
    from_queue (msg ∷ rest) = omega (arith, length-take (min len 256) msg)
recv-Fits len (shared m) = tt

received-Within :
    {D : Type 0} (k : Kernel D) (handle ptr len : ℕ) (ch : Kernels.Channel) (r : Outcome Bytes ℕ)
    → Fits len r
    → Within k ptr len (received handle ptr r (put_channel k handle ch))
unfolding received answer Within put_channel Fits
received-Within k handle ptr len ch (Channel.returns bytes) fits =
    λ a out. copy_to-Outside k.memory ptr len bytes a fits out
received-Within k handle ptr len ch (Channel.fails e) fits = λ a out. refl
received-Within k handle ptr len ch (Channel.waits n) fits = λ a out. refl

pub sys_read_channel-Within :
    {D : Type 0} (k : Kernel D) (a : Args) → Within k a.arg1 a.arg2 (sys_read_channel a k)
unfolding sys_read_channel with_channel Within or_answer answer
sys_read_channel-Within k a = elim (Bool-cases (is_bad_buffer a.arg1 a.arg2)) [
  | inl e ↦ rw e (λ _ _. refl)
  | inr e ↦ rw e (on_channel (Table.get k.channels a.arg0))
]
  where
    on_channel :
        (o : Option Kernels.Channel)
        → Within k a.arg1 a.arg2 (
            or_answer ebadf
              (λ ch k.
                let (ch', r) = recv a.arg2 ch in
                received a.arg0 a.arg1 r (put_channel k a.arg0 ch'))
              o
              k)
    on_channel none = λ _ _. refl
    on_channel (some ch) =
        received-Within k a.arg0 a.arg1 a.arg2 (recv a.arg2 ch).0 (recv a.arg2 ch).1
          (recv-Fits a.arg2 ch)

fill-Within :
    {D : Type 0} (fat : Fat D) (lower : Bytes → Bytes) (k : Kernel D) (ptr len : ℕ)
    (r : LogicalFs D × Result (List (Bytes × Bool)) FsError)
    → Within k ptr len (done (fill fat lower ptr len) k r)
unfolding done fill Within answer
fill-Within fat lower k ptr len (fs, ok entries) =
    let n = min (length entries) (len / 65) in
    λ a out.
      copy_to-Outside k.memory ptr len (dirents (take n entries)) a
        (omega (arith, length-dirents (take n entries), length-take n entries)) out
fill-Within fat lower k ptr len (fs, err e) = λ a out. refl

pub sys_getdents-Within :
    {D : Type 0} (fat : Fat D) (lower : Bytes → Bytes) (k : Kernel D) (a : Args)
    → Within k a.arg2 a.arg3 (sys_getdents fat lower a k)
unfolding sys_getdents with_path list_into on_fs Within answer or_answer
sys_getdents-Within fat lower k a = listed (str_from_user k.memory a.arg0 a.arg1)
  where
    listed :
        (o : Option Bytes)
        → Within k a.arg2 a.arg3 (or_answer efault (list_into fat lower a.arg2 a.arg3) o k)
    listed none = λ _ _. refl
    listed (some p) = elim (Bool-cases (is_bad_buffer a.arg2 a.arg3)) [
      | inl e ↦ rw e (λ _ _. refl)
      | inr e ↦ rw e (fill-Within fat lower k a.arg2 a.arg3 (Directories.getdents fat p k.fs))
    ]
