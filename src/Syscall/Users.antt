-- ===== src/Syscall/Users.antt =====
-- kernel/src/syscall/dispatch.rs: login, logout and the calls on the access matrix. The hash of the
-- passwords is a parameter.
use alaphi_os.Base.{ℕ, ◌%◌, ◌^◌, Result, ok, err, ◌==◌, ◌||◌, if◌then◌else◌}
use alaphi_os.Base.Bytes.{Bytes}
use alaphi_os.Fs.Overlay.{verify}
use alaphi_os.Lifecycle.{registry_get, write_task}
use alaphi_os.Security.{RbacAccessControl, access, grant, revoke}
use alaphi_os.Syscall.{Kernel, Args, Call, answer, from_raw_parts, with_tid, with_uid_gid}
use alaphi_os.Syscall.Errno.{pos, efault, eacces}

-- the write of the user to the running task, if the table has it
unfoldable pub set_user : {D : Type 0} → ℕ → ℕ → Kernel D → Kernel D
set_user user tid k = record k {
  system =
      write_task k.system (λ t. record t { uid = user; gid = user })
        (registry_get k.system.table tid);
}

unfoldable pub sys_logout : {D : Type 0} → Args → Call D
sys_logout a = with_tid λ tid k. answer (pos 0) (set_user 0 tid k)

module _ (sha256 : Bytes → Bytes) where
  unfoldable pub sys_login : {D : Type 0} → Args → Call D
  sys_login a k =
      let uid_arg = a.arg0 % 2 ^ 32 in
      if a.arg1 == 0 || a.arg2 == 0
      then answer efault k
      else (if verify sha256 k.fs.auth uid_arg (from_raw_parts k.memory a.arg1 a.arg2)
          then with_tid (λ tid k. answer (pos 0) (set_user uid_arg tid k)) k
          else answer eacces k)

-- Rights are 32 bits wide and so no negative reply.
unfoldable pub sys_access : {D : Type 0} → Args → Call D
sys_access a k = answer (pos (access k.control (a.arg0 % 2 ^ 32) a.arg1)) k

unfoldable pub settled : {D : Type 0} → RbacAccessControl × Result (Unit {0}) (Unit {0}) → Call D
settled (control, ok _) k = answer (pos 0) (record k { control = control })
settled (control, err _) k = answer eacces (record k { control = control })

unfoldable pub sys_grant : {D : Type 0} → Args → Call D
sys_grant a =
    with_uid_gid
      λ uid gid k. settled (grant k.control uid (a.arg0 % 2 ^ 32) a.arg1 (a.arg2 % 2 ^ 32)) k

unfoldable pub sys_revoke : {D : Type 0} → Args → Call D
sys_revoke a =
    with_uid_gid
      λ uid gid k. settled (revoke k.control uid (a.arg0 % 2 ^ 32) a.arg1 (a.arg2 % 2 ^ 32)) k
