-- ===== src/Syscall/Modes.antt =====
-- kernel/src/syscall/dispatch.rs, `SYS_CHMOD`: the mode goes through a `u8`.
use Prim.Native.Nat.{bit_and}
use alaphi_os.Base.{
  ℕ, zero, suc, ◌/◌, ◌%◌, ◌<◌, ◌≡◌, ◌≢◌, ◌∙◌, ap, refl, false, none, some, Result, ok, err, arith,
  ==_refl, ne→==,
}
use alaphi_os.Base.Map.{get, insert, nat_key, get-insert_here}
use alaphi_os.Base.Bytes.{Bytes, bytes_key, bytes_eq_self}
use alaphi_os.Fs.Access.{check_perm, check_entry, rwx_for}
use alaphi_os.Fs.Overlay.{PermEntry, can_read}
use alaphi_os.Fs.Vfs
use alaphi_os.Fs.Volume.{FsError, permission_denied, LogicalFs}
use alaphi_os.Syscall.{Kernel, Args, returns, answer, or_answer, Call, str_from_user}
use alaphi_os.Syscall.Errno.{pos, efault}
use alaphi_os.Syscall.Files.{with_path, on_fs, done, zero_for}
use alaphi_os.Syscall.Paths.{sys_chmod}

no_read : (x : ℕ) → x < 4 → can_read (bit_and x 7) ≡ false
unfolding can_read
no_read zero h = refl
no_read (suc zero) h = refl
no_read (suc (suc zero)) h = refl
no_read (suc (suc (suc zero))) h = refl
no_read (suc (suc (suc (suc x)))) h = absurd (omega arith)

-- The entry that a call with mode `mode` leaves.
abbrev moded : ℕ → PermEntry → PermEntry
moded mode entry =
    let bits = mode % 256 in
    record entry {
      owner_rwx = bit_and (bits / 64) 7;
      group_rwx = bit_and (bits / 8) 7;
      world_rwx = bit_and bits 7;
    }

-- A owner other than root fails the check for reading.
owner_fails :
    (mode gid : ℕ) (entry : PermEntry)
    → check_entry (moded mode entry) entry.uid gid false ≡ err permission_denied
unfolding check_entry rwx_for
owner_fails mode gid entry =
    let h : can_read (bit_and (mode % 256 / 64) 7) ≡ false =
      no_read (mode % 256 / 64) (omega arith) in
    rw (==_refl entry.uid, h) refl

module _ {D : Type 0} where
  chmodded : LogicalFs D → Bytes → ℕ → PermEntry → LogicalFs D
  chmodded s path mode entry = record s { perms = insert path (moded mode entry) s.perms }

  chmod-some :
      (s : LogicalFs D) (path : Bytes) (mode : ℕ) (entry : PermEntry)
      → get path s.perms ≡ some entry
      → Vfs.chmod path
          (bit_and (mode % 256 / 64) 7)
          (bit_and (mode % 256 / 8) 7)
          (bit_and (mode % 256) 7)
          s
        ≡ (chmodded s path mode entry, ok tt)
  unfolding Vfs.chmod chmodded
  chmod-some s path mode entry h =
      ap
        (λ o. elim o as (λ x. LogicalFs D × Result (Unit {0}) FsError) [
          | none ↦ (s, ok tt)
          | some e ↦ (chmodded s path mode e, ok tt)
        ])
        h

  chmod_of : ℕ → Bytes → Call D
  chmod_of mode p =
      on_fs
        (Vfs.chmod p (bit_and (mode % 256 / 64) 7) (bit_and (mode % 256 / 8) 7)
          (bit_and (mode % 256) 7))
        zero_for

  -- Whatever the mode, a successful `SYS_CHMOD` on a path with a recorded entry takes the right to read
  -- from its owner: the mode is cut to eight bits, and the ninth is the owner's read bit. The owner,
  -- unless it is root, fails `check_perm` from then on.
  pub sys_chmod_locks_owner_out :
      (k : Kernel D) (a : Args) (path : Bytes) (entry : PermEntry) (gid : ℕ)
      → str_from_user k.memory a.arg0 a.arg1 ≡ some path
      → get path k.fs.perms ≡ some entry
      → entry.uid ≢ 0
      → (k' : Kernel D) × (sys_chmod a k ≡ some (k', returns (pos 0)))
        × (check_perm k'.fs.perms path entry.uid gid false ≡ err permission_denied)
  unfolding sys_chmod chmod_of or_answer with_path on_fs answer zero_for done chmodded check_perm
  sys_chmod_locks_owner_out k a path entry gid s h user = (
    record k { fs = chmodded k.fs path a.arg2 entry },
    ap (λ o. or_answer efault (chmod_of a.arg2) o k) s
        ∙ ap (done zero_for k) (chmod-some k.fs path a.arg2 entry h),
    rw
        (
          ne→== entry.uid 0 user,
          get-insert_here path path (moded a.arg2 entry) k.fs.perms (bytes_eq_self path),
        )
        (owner_fails a.arg2 gid entry),
  )
