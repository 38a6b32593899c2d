-- ===== src/Syscall/Devices.antt =====
-- kernel/src/syscall/dispatch.rs: the calls on devices, and the console behind a descriptor.
use alaphi_os.Base.{
  ℕ, zero, suc, ◌+◌, ◌-◌, Option, none, some, [], ◌∷◌, ◌++◌, length, ltb, ◌==◌, if◌then◌else◌, true,
  false,
}
use alaphi_os.Base.Bytes.{Bytes}
use alaphi_os.Io.Console.{Console}
use alaphi_os.Io.Console
use alaphi_os.Io.Device.{
  DeviceStatus, find, get_mut, write_status, dev_fd_offset, ioctl_set_block, ioctl_set_nonblock,
}
use alaphi_os.Syscall.{Args, Call, answer, or_answer, copy_to, str_from_user}
use alaphi_os.Syscall.Errno.{pos, as_isize, enodev, enosys, efault, eagain}

abbrev pub console_dev : ℕ
console_dev = 0

-- What a read takes from the console: the bytes, and the console, the scan codes and the echo.
pub record Got : Type 0 where
  pub bytes : Bytes
  pub console : Console
  pub scancodes : Bytes
  pub echo : Bytes

unfoldable pub add_byte : ℕ → Got → Got
add_byte b g = record g { bytes = b ∷ g.bytes }

-- a round of the loop on what `get` gives: with no byte the loop ends, and else `rest` is what the
-- rounds after it take
unfoldable pub take_byte : Option ℕ → Console → Bytes → Bytes → Got → Got
take_byte none c codes echo rest = record {
  bytes = [];
  console = c;
  scancodes = codes;
  echo = echo;
}
take_byte (some ch) c codes echo rest = add_byte ch rest

-- the loop of `dev_read` over a buffer of `n` bytes
unfoldable pub get_bytes : ℕ → Console → Bytes → Bytes → Got
get_bytes zero c codes echo = record { bytes = []; console = c; scancodes = codes; echo = echo }
get_bytes (suc n) c codes echo =
    let (b, c', codes', echo') = Console.get c codes in
    take_byte b c' codes' (echo ++ echo') (get_bytes n c' codes' (echo ++ echo'))

unfoldable pub dev_read : {D : Type 0} → ℕ → ℕ → ℕ → Call D
dev_read dev_idx ptr len k =
    let g = get_bytes len k.console k.scancodes k.serial in
    let n = length g.bytes in
    if dev_idx == console_dev
    then answer (if n == 0 then eagain else as_isize n) (record k {
      console = g.console;
      scancodes = g.scancodes;
      serial = g.echo;
      memory = copy_to k.memory ptr g.bytes;
    })
    else answer enodev k

unfoldable pub put_all : Bytes → Bytes → Bytes
put_all serial [] = serial
put_all serial (b ∷ bytes) = put_all (Console.put serial b) bytes

unfoldable pub dev_write : {D : Type 0} → ℕ → Bytes → Call D
dev_write dev_idx buf k =
    if dev_idx == console_dev
    then answer (as_isize (length buf)) (record k { serial = put_all k.serial buf })
    else answer enodev k

unfoldable pub set_blocking : {D : Type 0} → ℕ → ℕ → Option DeviceStatus → Call D
set_blocking dev_idx cmd none k = answer enodev k
set_blocking dev_idx cmd (some status) k =
    if cmd == ioctl_set_nonblock
    then answer (pos 0)
        (record k { devices = write_status k.devices dev_idx (record status { blocking = false }) })
    else (if cmd == ioctl_set_block
        then answer (pos 0) (record k {
          devices = write_status k.devices dev_idx (record status { blocking = true });
        })
        else answer enosys k)

unfoldable pub sys_ioctl : {D : Type 0} → Args → Call D
sys_ioctl a k =
    let dev_idx = a.arg0 - dev_fd_offset in
    if ltb a.arg0 dev_fd_offset
    then answer enodev k
    else set_blocking dev_idx a.arg1 (get_mut k.devices dev_idx) k

unfoldable pub found_device : {D : Type 0} → Option ℕ → Call D
found_device none k = answer enodev k
found_device (some idx) k = answer (as_isize (idx + dev_fd_offset)) k

unfoldable pub sys_open_dev : {D : Type 0} → Args → Call D
sys_open_dev a k =
    or_answer efault (λ name k. found_device (find k.devices name) k)
      (str_from_user k.memory a.arg0 a.arg1) k

unfoldable pub sys_close_dev : {D : Type 0} → Call D
sys_close_dev = answer (pos 0)
