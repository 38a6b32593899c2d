-- ===== src/Syscall/Errno.antt =====
-- kernel/src/syscall/dispatch.rs: error codes, and the errors of the components as codes.
use alaphi_os.Base.{ℕ, ◌-◌, ◌^◌, ltb, if◌then◌else◌}
use alaphi_os.Fs.Volume.{
  FsError, not_found, already_exists, permission_denied, locked, is_shared, not_open, invalid_path,
  not_a_directory, is_a_directory, not_mounted,
}
use alaphi_os.Ipc.Channel.{IpcError, closed, would_block, too_large}

-- `isize`: `negsuc n` is `-(n + 1)`.
pub data ℤ : Type 0 where
  pos negsuc : ℕ → ℤ

-- `n as isize` for a 64-bit `n`
unfoldable pub as_isize : ℕ → ℤ
as_isize n = if ltb n (2 ^ 63) then pos n else negsuc (2 ^ 64 - 1 - n)

-- `n as isize` for the bit pattern `n` of an `i32`
unfoldable pub i32_as_isize : ℕ → ℤ
i32_as_isize n = if ltb n (2 ^ 31) then pos n else negsuc (2 ^ 32 - 1 - n)

abbrev pub enosys : ℤ
enosys = negsuc 37

abbrev pub ebadf : ℤ
ebadf = negsuc 8

abbrev pub efault : ℤ
efault = negsuc 13

abbrev pub eagain : ℤ
eagain = negsuc 10

abbrev pub epipe : ℤ
epipe = negsuc 31

abbrev pub emsgsize : ℤ
emsgsize = negsuc 89

abbrev pub enoent : ℤ
enoent = negsuc 1

abbrev pub eacces : ℤ
eacces = negsuc 12

abbrev pub eexist : ℤ
eexist = negsuc 16

abbrev pub enotdir : ℤ
enotdir = negsuc 19

abbrev pub eisdir : ℤ
eisdir = negsuc 20

abbrev pub ebusy : ℤ
ebusy = negsuc 15

abbrev pub erofs : ℤ
erofs = negsuc 29

abbrev pub enodev : ℤ
enodev = negsuc 18

unfoldable pub fs_err : FsError → ℤ
fs_err not_found = enoent
fs_err already_exists = eexist
fs_err permission_denied = eacces
fs_err locked = ebusy
fs_err is_shared = erofs
fs_err not_open = ebadf
fs_err invalid_path = efault
fs_err not_a_directory = enotdir
fs_err is_a_directory = eisdir
fs_err not_mounted = enodev

-- the `match e` of the reads and writes of a channel
unfoldable pub ipc_err : IpcError → ℤ
ipc_err closed = epipe
ipc_err would_block = eagain
ipc_err too_large = emsgsize
