-- ===== src/Syscall/Files.antt =====
-- kernel/src/syscall/dispatch.rs: the calls on open files. The volume and `str::to_lowercase` are
-- parameters.
use alaphi_os.Base.{ℕ, ◌-◌, Option, Result, ok, err, length, ltb, if◌then◌else◌}
use alaphi_os.Base.Bytes.{Bytes}
use alaphi_os.Fs.Vfs
use alaphi_os.Fs.Volume.{LogicalFs, FsError, Fat, M}
use alaphi_os.Io.Device.{dev_fd_offset}
use alaphi_os.Syscall.{
  Kernel, Args, Call, Reply, answer, or_answer, from_raw_parts, copy_to, str_from_user,
  is_bad_buffer, with_pid, with_uid_gid,
}
use alaphi_os.Syscall.Devices.{dev_read, dev_write}
use alaphi_os.Syscall.Errno.{pos, efault, as_isize, fs_err}

-- A method of the file system: its result, by what follows a success, or its error as a code.
unfoldable pub done :
    {D A : Type 0}
    → (A → Call D)
    → Kernel D
    → LogicalFs D × Result A FsError
    → Option (Kernel D × Reply)
done f k (fs, ok a) = f a (record k { fs = fs })
done f k (fs, err e) = answer (fs_err e) (record k { fs = fs })

unfoldable pub on_fs : {D A : Type 0} → M D A → (A → Call D) → Call D
on_fs m f k = done f k (m k.fs)

-- `Ok(()) => 0`
unfoldable pub zero_for : {D : Type 0} → Unit {0} → Call D
zero_for _ = answer (pos 0)

-- `Ok(fd) => fd as isize`
unfoldable pub number : {D : Type 0} → ℕ → Call D
number n = answer (as_isize n)

unfoldable pub with_path : {D : Type 0} → ℕ → ℕ → (Bytes → Call D) → Call D
with_path ptr len f k = or_answer efault f (str_from_user k.memory ptr len) k

unfoldable pub sys_close : {D : Type 0} → Args → Call D
sys_close a = with_pid λ pid. on_fs (Vfs.close a.arg0 pid) zero_for

unfoldable pub sys_seek : {D : Type 0} → Args → Call D
sys_seek a = with_pid λ pid. on_fs (Vfs.seek a.arg0 pid a.arg1) zero_for

module _ {D : Type 0} (fat : Fat D) (lower : Bytes → Bytes) where
  unfoldable pub sys_open : Args → Call D
  sys_open a = with_path a.arg0 a.arg1 λ p.
      with_pid λ pid. with_uid_gid λ uid gid. on_fs (Vfs.open_path fat lower p pid uid gid) number

  unfoldable pub sys_create : Args → Call D
  sys_create a =
      with_path a.arg0 a.arg1 λ p. with_pid λ pid. on_fs (Vfs.create fat lower p pid) number

  -- The bytes read go to the buffer, and their number is the reply.
  unfoldable pub read_bytes : ℕ → Bytes → Call D
  read_bytes ptr bytes k = number (length bytes) (record k { memory = copy_to k.memory ptr bytes })

  unfoldable pub read_file : Args → ℕ → ℕ → ℕ → Call D
  read_file a pid uid gid = on_fs (Vfs.read fat lower a.arg0 pid uid gid a.arg2) (read_bytes a.arg1)

  unfoldable pub sys_read : Args → Call D
  sys_read a =
      if is_bad_buffer a.arg1 a.arg2
      then answer efault
      else (if ltb a.arg0 dev_fd_offset
          then with_pid (λ pid. with_uid_gid (read_file a pid))
          else dev_read (a.arg0 - dev_fd_offset) a.arg1 a.arg2)

  unfoldable pub sys_write : Args → Call D
  sys_write a k =
      let buf = from_raw_parts k.memory a.arg1 a.arg2 in
      if is_bad_buffer a.arg1 a.arg2
      then answer efault k
      else (if ltb a.arg0 dev_fd_offset
          then with_pid
              (λ pid.
                with_uid_gid λ uid gid. on_fs (Vfs.write fat lower a.arg0 pid uid gid buf) number)
              k
          else dev_write (a.arg0 - dev_fd_offset) buf k)
