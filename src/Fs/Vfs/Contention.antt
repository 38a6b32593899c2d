-- ===== src/Fs/Vfs/Contention.antt =====
-- kernel/src/fs/vfs.rs: a file that another descriptor holds, and the ways round the lock.
use alaphi_os.Base.{ap, ◌∙◌, ℕ, ◌≡◌, refl, true, false, none, some, Result, ok, err, is_ok, ◌∷◌}
use alaphi_os.Base.Map.{insert, remove, get, nat_key, get-remove_here}
use alaphi_os.Base.Bytes.{Bytes, bytes_key, bytes_eq_self}
use alaphi_os.Fs.Tables.{Fcb, FcbTable, open_fcb, new_fcb, get_for, remove_for}
use alaphi_os.Fs.Volume.{
  LogicalFs, Fat, M, FsError, is_shared, not_open, ◌>>=◌, state, fail_if, ok_or,
}
use alaphi_os.Fs.Access.{slash, trim_slashes, to_fat_path}
use alaphi_os.Fs.Vfs.{
  write, delete, path_of, fcb_of, open_path, claim, lock_fcb, close, release, drop_fcb, shared_at,
  case_conflict, disk_mut, require,
}
use alaphi_os.Fs.Vfs.Descriptors.{path_at}
use alaphi_os.Fs.Vfs.Exclusive.{Exclusive-write, Exclusive}
use alaphi_os.Fs.Vfs.Permissions.{check_perm-eq-ok}
use alaphi_os.Fs.Vfs.Steps.{
  bind-ok, bind-err, Tables, Post, Triple, Quiet, Triple-bind, Triple-Quiet, Quiet-ok_or,
  Quiet-fail_if, Quiet-state, Quiet-require, Quiet-disk_mut,
}

-- A block lies at the path.
abbrev Busy : Bytes → Tables
Busy path fcbs fds = Exclusive fcbs fds × (f : Fcb) × (get path fcbs ≡ some f)

abbrev Never : ℕ → Tables
Never fd fcbs fds = true ≡ false

shared_at-found :
    (fcbs : FcbTable) (path : Bytes) (f : Fcb)
    → get path fcbs ≡ some f
    → f.is_shared ≡ true
    → shared_at fcbs path ≡ true
unfolding shared_at
shared_at-found fcbs path f h shared = rw (shared_at, h) shared

shared_at-remove : (path : Bytes) (m : FcbTable) → shared_at (remove path m) path ≡ false
unfolding shared_at
shared_at-remove path m = rw (shared_at, get-remove_here path path m (bytes_eq_self path)) refl

module _ {D : Type 0} where
  busy : {A : Type 0} {m : M D A} (path : Bytes) → Quiet m → Triple (Busy path) m (λ a. Busy path)
  busy path = Triple-Quiet (λ fcbs fds w. w.0)

  post_busy :
      (path : Bytes) (pid : ℕ) (s : LogicalFs D) (f : Fcb)
      → Exclusive s.fcbs s.fds
      → get path s.fcbs ≡ some f
      → Post Never (lock_fcb path pid (open_fcb path (some f)) s)
  unfolding lock_fcb open_fcb Post
  post_busy path pid s f w at_f =
      rw ((w.counted path f at_f).1) (Exclusive-write s.fcbs s.fds path f f at_f refl refl w)

  claim-busy : (path : Bytes) (pid : ℕ) → Triple {D = D} (Busy path) (claim path pid) Never
  unfolding claim
  claim-busy path pid = record {
    run = λ s h. let (w, f, at_f) = h in rw at_f (post_busy path pid s f w at_f);
  }

  refused : (x : LogicalFs D × Result ℕ FsError) → Post Never x → is_ok x.1 ≡ false
  unfolding Post
  refused (s, ok fd) p = p
  refused (s, err e) p = refl

  path_of-found :
      (fd pid : ℕ) (path : Bytes) (s : LogicalFs D)
      → path_at s.fds pid fd ≡ some path
      → path_of fd pid s ≡ (record s { fds = (get_for s.fds pid fd).1 }, ok path)
  unfolding path_of path_at get_for ok_or
  path_of-found fd pid path s h =
      ap (λ o. ok_or o not_open (record s { fds = (get_for s.fds pid fd).1 })) h

  fcb_of-found :
      (path : Bytes) (s : LogicalFs D) (f : Fcb)
      → get path s.fcbs ≡ some f
      → fcb_of path s ≡ (s, ok f)
  unfolding fcb_of ok_or
  fcb_of-found path s f h = ap (λ o. ok_or o not_open s) h

  module _ (fat : Fat D) (lower : Bytes → Bytes) where
    -- In a state with exclusive locks, a path that an open descriptor stands for cannot be opened
    -- a second time, by any process or user, the holder and root included.
    pub open_path_busy :
        (s : LogicalFs D) (path : Bytes) (holder fd pid uid gid : ℕ)
        → Exclusive s.fcbs s.fds
        → path_at s.fds holder fd ≡ some path
        → is_ok (open_path fat lower path pid uid gid s).1 ≡ false
    unfolding open_path
    open_path_busy s path holder fd pid uid gid w h =
        let (f, at_f, mine) = w.owned holder fd path h in
        refused _ (
          (Triple-bind (busy path Quiet-state) λ t. Triple-bind (busy path (Quiet-fail_if _ _)) λ a.
              Triple-bind (busy path (Quiet-require _)) λ b.
                Triple-bind (busy path (Quiet-ok_or _ _)) λ fat_path.
                  Triple-bind (busy path Quiet-disk_mut)
                    λ d. Triple-bind (busy path (Quiet-fail_if _ _)) λ c. claim-busy path pid).run
            s (w, f, at_f))

    -- While the block of a file is marked as shared, a write through a descriptor of the file and
    -- a deletion of its path return `IsShared`, for every user, and leave the volume, the blocks
    -- and the permissions as they were.
    pub shared_refuses :
        (s : LogicalFs D) (path : Bytes) (f : Fcb) (fd pid uid gid : ℕ) (buf : Bytes)
        → path_at s.fds pid fd ≡ some path
        → get path s.fcbs ≡ some f
        → f.is_shared ≡ true
        → (write fat lower fd pid uid gid buf s
            ≡ (record s { fds = (get_for s.fds pid fd).1 }, err is_shared))
          × (delete fat lower path s ≡ (s, err is_shared))
    unfolding write delete state fail_if
    shared_refuses s path f fd pid uid gid buf h at_f shared =
        let t = record s { fds = (get_for s.fds pid fd).1 } in
        let first = path_of-found fd pid path s h in
        let second = fcb_of-found path t f at_f in
        let mark = shared_at-found s.fcbs path f at_f shared in
        (
          bind-ok _ _ s _ path first
              ∙ (bind-ok _ _ _ _ f second ∙ bind-err _ _ _ _ is_shared (rw shared refl)),
          bind-ok _ _ s s s refl ∙ bind-err _ _ s s is_shared (rw mark refl),
        )

    -- On a mounted volume, a path with an extra slash before it opens for any user and any process
    -- as long as the volume has the file and neither the permissions nor the open files have an
    -- entry under that very spelling (nor one that differs in case only): what is recorded or
    -- locked under the path with one slash, which is the same file of the volume, does not matter.
    pub open_path_alias :
        (s : LogicalFs D) (d : D) (q : Bytes) (pid uid gid : ℕ)
        → s.disk ≡ some d
        → fat.open_file d (trim_slashes q) ≡ true
        → case_conflict fat lower s (slash ∷ slash ∷ q) ≡ false
        → get (slash ∷ slash ∷ q) s.perms ≡ none
        → get (slash ∷ slash ∷ q) s.fcbs ≡ none
        → is_ok (open_path fat lower (slash ∷ slash ∷ q) pid uid gid s).1 ≡ true
    unfolding open_path ◌>>=◌ state fail_if require ok_or disk_mut claim lock_fcb open_fcb new_fcb
        to_fat_path trim_slashes
    open_path_alias s d q pid uid gid mounted there clear perm free =
        let pass = check_perm-eq-ok s.perms (slash ∷ slash ∷ q) uid gid false perm in
        simp (clear, pass, mounted, there, free) refl

  drop_fcb_unshared :
      (path : Bytes) (pid : ℕ) (f : Fcb) (s : LogicalFs D)
      → f.open_count ≡ 1
      → shared_at (drop_fcb path pid (some f) s).fcbs path ≡ false
  unfolding drop_fcb
  drop_fcb_unshared path pid f s one = rw one (shared_at-remove path (insert path _ s.fcbs))

  close-release :
      (s : LogicalFs D) (path : Bytes) (fd pid : ℕ)
      → path_at s.fds pid fd ≡ some path
      → (close fd pid s).0 ≡ release path pid (record s { fds = (remove_for s.fds pid fd).1 })
  unfolding close path_at remove_for
  close-release s path fd pid h =
      let s' = record s { fds = (remove_for s.fds pid fd).1 } in
      ap
        (λ o.
          (elim o as (λ x. LogicalFs D × Result (Unit {0}) FsError) [
            | none ↦ (s', err not_open)
            | some p ↦ (release p pid s', ok tt)
          ]).0)
        h

  -- In a state with exclusive locks, closing the descriptor of a file forgets that the file was
  -- marked as shared.
  pub close_forgets_shared :
      (s : LogicalFs D) (path : Bytes) (fd pid : ℕ)
      → Exclusive s.fcbs s.fds
      → path_at s.fds pid fd ≡ some path
      → shared_at (close fd pid s).0.fcbs path ≡ false
  unfolding release
  close_forgets_shared s path fd pid w h =
      let (f, at_f, mine) = w.owned pid fd path h in
      rw (close-release s path fd pid h, at_f)
        (drop_fcb_unshared path pid f (record s { fds = (remove_for s.fds pid fd).1 })
          (w.counted path f at_f).0)
