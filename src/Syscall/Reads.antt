-- ===== src/Syscall/Reads.antt =====
-- kernel/src/syscall/dispatch.rs: `SYS_READ` stays inside its buffer.
use alaphi_os.Base.{
  ℕ, zero, suc, ◌-◌, ◌≤◌, ◌≡◌, refl, Option, none, some, ◌++◌, Result, ok, err, length, arith, ltb,
  ◌==◌, inl, inr, Bool-cases,
}
use alaphi_os.Base.Bytes.{Bytes}
use alaphi_os.Fs.Vfs
use alaphi_os.Fs.Vfs.{require, path_of, fcb_of, write_fcb, disk_mut, put_disk}
use alaphi_os.Fs.Volume.{FsError, Fat, LogicalFs, M, ◌>>=◌, pure, ok_or}
use alaphi_os.Io.Console.{Console}
use alaphi_os.Io.Console
use alaphi_os.Io.Device.{dev_fd_offset}
use alaphi_os.Lifecycle.{registry_get, current_pid, current_tid}
use alaphi_os.Syscall.{
  Kernel, Args, answer, or_panic, with_pid, with_tid, with_uid_gid, uid_gid_of, is_bad_buffer,
}
use alaphi_os.Syscall.Channels.{sys_read_channel}
use alaphi_os.Syscall.Buffers.{copy_to-Outside}
use alaphi_os.Syscall.Devices.{Got, get_bytes, add_byte, take_byte, dev_read}
use alaphi_os.Syscall.Files.{done, on_fs, number, read_bytes, read_file, sys_read}
use alaphi_os.Syscall.Paths.{sys_getdents}
use alaphi_os.Syscall.Overruns.{Within, sys_read_channel-Within, sys_getdents-Within}

-- What a method of the file system returns, if it returns.
unfoldable Gives : {D A : Type 0} → (A → Type 0) → LogicalFs D × Result A FsError → Type 0
Gives P (s, ok a) = P a
Gives P (s, err e) = Unit {0}

bind-Gives :
    {D A B : Type 0} (P : B → Type 0) (m : M D A) (f : A → M D B)
    → ((a : A) (s : LogicalFs D) → Gives P (f a s))
    → (s : LogicalFs D) → Gives P ((m >>= f) s)
unfolding ◌>>=◌ Gives
bind-Gives {D = D} {A = A} {B = B} P m f h s = after (m s)
  where
    after :
        (r : LogicalFs D × Result A FsError)
        → Gives P (elim r.1 as (λ _. LogicalFs D × Result B FsError) [
          | ok a ↦ f a r.0
          | err e ↦ (r.0, err e)
        ])
    after (s, ok a) = h a s
    after (s, err e) = tt

ok_or-Gives :
    {D A B : Type 0} (P : B → Type 0) (o : Option A) (e : FsError) (f : A → M D B)
    → ((a : A) → o ≡ some a → (s : LogicalFs D) → Gives P (f a s))
    → (s : LogicalFs D) → Gives P ((ok_or o e >>= f) s)
unfolding ◌>>=◌ Gives ok_or
ok_or-Gives P none e f h s = tt
ok_or-Gives P (some a) e f h s = h a refl s

-- The volume reads no more than it is asked for.
abbrev pub ReadsBounded : {D : Type 0} → Fat D → Type 0
ReadsBounded {D = D} fat =
    (d : D) (path : Bytes) (cursor len : ℕ) (bytes : Bytes)
    → (fat.seek_read d path cursor len).1 ≡ some bytes
    → length bytes ≤ len

read-Gives :
    {D : Type 0} (fat : Fat D) (lower : Bytes → Bytes) (fd pid uid gid len : ℕ)
    → ReadsBounded fat
    → (s : LogicalFs D)
    → Gives (λ bytes. length bytes ≤ len) (Vfs.read fat lower fd pid uid gid len s)
unfolding Vfs.read Gives pure
read-Gives fat lower fd pid uid gid len bounded =
    let P : Bytes → Type 0 = λ bytes. length bytes ≤ len in
    bind-Gives P _ _ λ path. bind-Gives P _ _ λ s. bind-Gives P _ _ λ _. bind-Gives P _ _ λ fcb.
      bind-Gives P _ _ λ fat_path. bind-Gives P _ _ λ d. bind-Gives P _ _ λ _. bind-Gives P _ _ λ _.
        ok_or-Gives P _ _ _
          λ bytes e. bind-Gives P _ _ λ _ s. bounded d fat_path fcb.cursor len bytes e

read_bytes-Within :
    {D : Type 0} (fat : Fat D) (lower : Bytes → Bytes) (k : Kernel D) (ptr len : ℕ)
    (r : LogicalFs D × Result Bytes FsError)
    → Gives (λ bytes. length bytes ≤ len) r
    → Within k ptr len (done (read_bytes fat lower ptr) k r)
unfolding done read_bytes number answer Within Gives
read_bytes-Within fat lower k ptr len (fs, ok bytes) h =
    λ a out. copy_to-Outside k.memory ptr len bytes a h out
read_bytes-Within fat lower k ptr len (fs, err e) h = λ a out. refl

length-get_bytes :
    (n : ℕ) (c : Console) (codes echo : Bytes) → length (get_bytes n c codes echo).bytes ≤ n
unfolding get_bytes take_byte add_byte
length-get_bytes zero c codes echo = omega arith
length-get_bytes (suc n) c codes echo =
    let (b, c', codes', echo') = Console.get c codes in
    taken b c' codes' (echo ++ echo') (get_bytes n c' codes' (echo ++ echo'))
      (length-get_bytes n c' codes' (echo ++ echo'))
  where
    taken :
        (b : Option ℕ) (c : Console) (codes echo : Bytes) (g : Got)
        → length g.bytes ≤ n
        → length (take_byte b c codes echo g).bytes ≤ suc n
    taken none c codes echo g h = omega arith
    taken (some ch) c codes echo g h = omega arith

dev_read-Within :
    {D : Type 0} (k : Kernel D) (dev_idx ptr len : ℕ)
    → Within k ptr len (dev_read dev_idx ptr len k)
unfolding dev_read Within answer
dev_read-Within k dev_idx ptr len = elim (Bool-cases (dev_idx == 0)) [
  | inl e ↦ rw e (λ a out.
      copy_to-Outside k.memory ptr len _ a (length-get_bytes len k.console k.scancodes k.serial)
        out)
  | inr e ↦ rw e (λ _ _. refl)
]

sys_read-Within :
    {D : Type 0} (fat : Fat D) (lower : Bytes → Bytes) (k : Kernel D) (a : Args)
    → ReadsBounded fat
    → Within k a.arg1 a.arg2 (sys_read fat lower a k)
unfolding sys_read with_pid with_uid_gid with_tid read_file on_fs Within answer or_panic
sys_read-Within {D = D} fat lower k a bounded = elim (Bool-cases (is_bad_buffer a.arg1 a.arg2)) [
  | inl e ↦ rw e (λ _ _. refl)
  | inr e ↦ elim (Bool-cases (ltb a.arg0 dev_fd_offset)) [
    | inl f ↦ rw (e, f) (by_pid (current_pid k.system))
    | inr f ↦ rw (e, f) (dev_read-Within k (a.arg0 - dev_fd_offset) a.arg1 a.arg2)
  ]
]
  where
    by_tid :
        (pid : ℕ) (o : Option ℕ)
        → Within k a.arg1 a.arg2 (
            or_panic
              (λ tid k.
                let (uid, gid) = uid_gid_of k.system (registry_get k.system.table tid) in
                read_file fat lower a pid uid gid k)
              o
              k)
    by_tid pid none = tt
    by_tid pid (some tid) =
        let (uid, gid) = uid_gid_of k.system (registry_get k.system.table tid) in
        read_bytes-Within fat lower k a.arg1 a.arg2
          (Vfs.read fat lower a.arg0 pid uid gid a.arg2 k.fs)
          (read-Gives fat lower a.arg0 pid uid gid a.arg2 bounded k.fs)

    by_pid :
        (o : Option ℕ)
        → Within k a.arg1 a.arg2 (or_panic (λ pid. with_uid_gid (read_file fat lower a pid)) o k)
    by_pid none = tt
    by_pid (some pid) = by_tid pid (current_tid k.system)

-- When the volume never reads more bytes than it is asked for, the system calls that fill a buffer of
-- user memory change no byte outside it, whatever their arguments and the state of the kernel:
-- `SYS_READ` on files and on the console, `SYS_PIPE_READ` and `SYS_MSG_RECV` on every kind of
-- channel, and `SYS_GETDENTS`, whose records of 65 bytes are as many as fit.
pub reads_stay_in_buffer :
    {D : Type 0} (fat : Fat D) (lower : Bytes → Bytes) (k : Kernel D) (a : Args)
    → ReadsBounded fat
    → Within k a.arg1 a.arg2 (sys_read fat lower a k)
      × Within k a.arg1 a.arg2 (sys_read_channel a k)
      × Within k a.arg2 a.arg3 (sys_getdents fat lower a k)
reads_stay_in_buffer fat lower k a bounded = (
  sys_read-Within fat lower k a bounded,
  sys_read_channel-Within k a,
  sys_getdents-Within fat lower k a,
)
