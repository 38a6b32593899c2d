-- ===== src/Syscall/Privileges.antt =====
-- kernel/src/syscall/dispatch.rs, `SYS_LOGIN` and `SYS_LOGOUT`: who a task acts for.
use alaphi_os.Base.{
  ℕ, ◌%◌, ◌^◌, ◌≡◌, ◌∙◌, ◌⊎◌, ap, refl, subst, Bool, true, Option, none, some, ok, ◌==◌, ◌||◌,
  ==_refl, inl, inr, Bool-cases,
}
use alaphi_os.Base.Bytes.{Bytes}
use alaphi_os.Fs.Access.{check_perm}
use alaphi_os.Fs.Overlay.{verify}
use alaphi_os.Lifecycle.{registry_get, current_tid, write_task}
use alaphi_os.Scheduler.{Arc}
use alaphi_os.Syscall.{
  Kernel, Args, Reply, returns, answer, or_panic, with_tid, from_raw_parts, uid_gid_of,
}
use alaphi_os.Syscall.Errno.{pos}
use alaphi_os.Syscall.Users.{set_user, sys_logout, sys_login}

module _ {D : Type 0} where
  -- the task that a write to the user of thread `tid` leaves
  as_user : ℕ → Kernel D → Arc → Kernel D
  as_user user k arc = record k {
    system = write_task k.system (λ t. record t { uid = user; gid = user }) (some arc);
  }

  set_user-listed :
      (user tid : ℕ) (k : Kernel D) (arc : Arc)
      → registry_get k.system.table tid ≡ some arc
      → set_user user tid k ≡ as_user user k arc
  unfolding set_user as_user
  set_user-listed user tid k arc h =
      ap
        (λ o. record k {
          system = write_task k.system (λ t. record t { uid = user; gid = user }) o;
        })
        h

  as_user-uid_gid_of :
      (user : ℕ) (k : Kernel D) (arc : Arc)
      → uid_gid_of (as_user user k arc).system (some arc) ≡ (user, user)
  unfolding as_user write_task uid_gid_of
  as_user-uid_gid_of user k arc = rw (==_refl arc) refl

  -- A task that logs out becomes root: `SYS_LOGOUT` always succeeds, gives the running task the user
  -- and the group 0, and from then on `check_perm` grants it every access to every path.
  pub sys_logout_gives_root :
      (k : Kernel D) (a : Args) (tid : ℕ) (arc : Arc)
      → current_tid k.system ≡ some tid
      → registry_get k.system.table tid ≡ some arc
      → (k' : Kernel D) × (sys_logout a k ≡ some (k', returns (pos 0)))
        × (uid_gid_of k'.system (registry_get k'.system.table tid) ≡ (0, 0))
        × ((path : Bytes) (want_write : Bool)
            → let (uid, gid) = uid_gid_of k'.system (registry_get k'.system.table tid) in
              check_perm k'.fs.perms path uid gid want_write ≡ ok tt)
  unfolding sys_logout with_tid answer or_panic check_perm as_user write_task
  sys_logout_gives_root k a tid arc runs listed =
      let root = root_of in
      (
        as_user 0 k arc,
        ap (λ o. or_panic (λ tid k. answer (pos 0) (set_user 0 tid k)) o k) runs
            ∙ ap (answer (pos 0)) (set_user-listed 0 tid k arc listed),
        root,
        λ path w. rw root refl,
      )
    where
      same : registry_get (as_user 0 k arc).system.table tid ≡ some arc
      same = listed

      root_of :
          uid_gid_of (as_user 0 k arc).system (registry_get (as_user 0 k arc).system.table tid)
          ≡ (0, 0)
      root_of = ap (uid_gid_of (as_user 0 k arc).system) same ∙ as_user-uid_gid_of 0 k arc

-- What a call may do to the users of the tasks when its password verifies or does not.
Guarded : {D : Type 0} → Kernel D → Bool → Option (Kernel D × Reply) → Type 0
Guarded k verified none = Unit {0}
Guarded k verified (some (k', reply)) =
    ((b : Arc) → (k'.system.heap b).uid ≡ (k.system.heap b).uid)
    ⊎ ((verified ≡ true) × (reply ≡ returns (pos 0)))

sys_login-Guarded :
    {D : Type 0} (sha256 : Bytes → Bytes) (k : Kernel D) (a : Args)
    → Guarded k
        (verify sha256 k.fs.auth (a.arg0 % 2 ^ 32) (from_raw_parts k.memory a.arg1 a.arg2))
        (sys_login sha256 a k)
unfolding sys_login answer Guarded with_tid or_panic
sys_login-Guarded sha256 k a =
    let verified =
      verify sha256 k.fs.auth (a.arg0 % 2 ^ 32) (from_raw_parts k.memory a.arg1 a.arg2) in
    elim (Bool-cases (a.arg1 == 0 || a.arg2 == 0)) [
      | inl e ↦ rw e (inl (λ b. refl))
      | inr e ↦ elim (Bool-cases verified) [
        | inl v ↦ rw (e, v) (logged_in (current_tid k.system))
        | inr v ↦ rw (e, v) (inl (λ b. refl))
      ]
    ]
  where
    logged_in :
        (o : Option ℕ)
        → Guarded k true (or_panic (λ tid k. answer (pos 0) (set_user (a.arg0 % 2 ^ 32) tid k)) o k)
    logged_in none = tt
    logged_in (some tid) = inr (refl, refl)

-- Whatever the arguments, a `SYS_LOGIN` that returns either leaves the user of every task as it was,
-- or the password that it was given verifies for the user asked for, and it returns 0.
pub sys_login_needs_password :
    {D : Type 0} (sha256 : Bytes → Bytes) (k k' : Kernel D) (a : Args) (reply : Reply)
    → sys_login sha256 a k ≡ some (k', reply)
    → ((b : Arc) → (k'.system.heap b).uid ≡ (k.system.heap b).uid)
      ⊎ ((verify sha256 k.fs.auth (a.arg0 % 2 ^ 32) (from_raw_parts k.memory a.arg1 a.arg2) ≡ true)
          × (reply ≡ returns (pos 0)))
unfolding Guarded
sys_login_needs_password sha256 k k' a reply h =
    subst
      (Guarded k
        (verify sha256 k.fs.auth (a.arg0 % 2 ^ 32) (from_raw_parts k.memory a.arg1 a.arg2)))
      h (sys_login-Guarded sha256 k a)
