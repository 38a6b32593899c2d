-- ===== src/Fs/Vfs/Locking.antt =====
-- kernel/src/fs/vfs.rs: every operation on files keeps the exclusive locks.
use alaphi_os.Base.{ℕ, ◌+◌, ◌^◌, ◌<◌, ◌≡◌, refl, true, Option, none, some, Result, ok, err, length}
use alaphi_os.Base.Map.{get, insert-insert, nat_key}
use alaphi_os.Base.Bytes.{Bytes, bytes_key}
use alaphi_os.Fs.Tables.{Fcb, get_for, remove_for, open_fcb, new_fcb}
use alaphi_os.Fs.Volume.{FsError, LogicalFs, M, Fat, ok_or, not_open, not_found}
use alaphi_os.Fs.Vfs.{
  path_of, seek, close, release, drop_fcb, read, write, rename, mkdir, claim, lock_fcb, fcb_of,
  write_fcb, mark_shared, open_path, create,
}
use alaphi_os.Fs.Vfs.Descriptors.{path_at, next_of}
use alaphi_os.Fs.Vfs.Exclusive.{
  Exclusive, Exclusive-get_for, Exclusive-write, Exclusive-remove, Exclusive-remove_none,
  Exclusive-claim,
}
use alaphi_os.Fs.Vfs.Steps.{
  Tables, Post, Triple, Quiet, Triple-bind, Triple-Quiet, Quiet-ok_or, Quiet-fail_if, Quiet-state,
  Quiet-pure, Quiet-require, Quiet-disk_mut, Quiet-put_disk,
}

-- The block that lies at a path.
abbrev pub Held : Bytes → Fcb → Tables
Held path f fcbs fds = Exclusive fcbs fds × (get path fcbs ≡ some f)

-- Room for one more number in the table of the process.
abbrev pub Room : ℕ → Tables
Room pid fcbs fds = Exclusive fcbs fds × (next_of fds pid + 1 < 2 ^ 64)

module _ {D : Type 0} where
  free : {A : Type 0} {m : M D A} → Quiet m → Triple Exclusive m (λ a. Exclusive)
  free = Triple-Quiet (λ fcbs fds w. w)

  held :
      {A : Type 0} {m : M D A} (path : Bytes) (f : Fcb)
      → Quiet m
      → Triple (Held path f) m (λ a. Held path f)
  held path f = Triple-Quiet (λ fcbs fds w. w.0)

  roomy : {A : Type 0} {m : M D A} (pid : ℕ) → Quiet m → Triple (Room pid) m (λ a. Room pid)
  roomy pid = Triple-Quiet (λ fcbs fds w. w.0)

  path_of-Triple : (fd pid : ℕ) → Triple {D = D} Exclusive (path_of fd pid) (λ path. Exclusive)
  unfolding path_of
  path_of-Triple fd pid = record {
    run = λ s w.
        (free (Quiet-ok_or (get_for s.fds pid fd).0 not_open)).run
          (record s { fds = (get_for s.fds pid fd).1 }) (Exclusive-get_for s.fcbs s.fds pid fd w);
  }

  post_fcb_of :
      (path : Bytes) (s : LogicalFs D) (o : Option Fcb)
      → get path s.fcbs ≡ o
      → Exclusive s.fcbs s.fds
      → Post (Held path) (ok_or o not_open s)
  unfolding Post ok_or
  post_fcb_of path s none e w = w
  post_fcb_of path s (some f) e w = (w, e)

  fcb_of-Triple : (path : Bytes) → Triple {D = D} Exclusive (fcb_of path) (Held path)
  unfolding fcb_of
  fcb_of-Triple path = record { run = λ s w. post_fcb_of path s (get path s.fcbs) refl w }

  write_fcb-Triple :
      (path : Bytes) (f f' : Fcb)
      → f'.locked_by ≡ f.locked_by
      → f'.open_count ≡ f.open_count
      → Triple {D = D} (Held path f) (write_fcb path f') (λ a. Exclusive)
  unfolding write_fcb Post
  write_fcb-Triple path f f' lock count = record {
    run = λ s h. Exclusive-write s.fcbs s.fds path f f' h.1 lock count h.0;
  }

  pub seek-Triple :
      (fd pid offset : ℕ) → Triple {D = D} Exclusive (seek fd pid offset) (λ a. Exclusive)
  unfolding seek
  seek-Triple fd pid offset =
      Triple-bind (path_of-Triple fd pid)
        λ path. Triple-bind (fcb_of-Triple path) λ f. write_fcb-Triple path f _ refl refl

  post_mark :
      (path : Bytes) (s : LogicalFs D)
      → Exclusive s.fcbs s.fds
      → (o : Option Fcb) → get path s.fcbs ≡ o
      → Post
          (λ a. Exclusive)
          (elim o as (λ x. LogicalFs D × Result (Unit {0}) FsError) [
            | none ↦ (s, err not_found)
            | some fcb ↦ write_fcb path (record fcb { is_shared = true }) s
          ])
  unfolding Post
  post_mark path s w none e = w
  post_mark path s w (some f) e = (write_fcb-Triple path f _ refl refl).run s (w, e)

  pub mark_shared-Triple :
      (path : Bytes) → Triple {D = D} Exclusive (mark_shared path) (λ a. Exclusive)
  unfolding mark_shared
  mark_shared-Triple path = record { run = λ s w. post_mark path s w (get path s.fcbs) refl }

  post_lock :
      (path : Bytes) (pid : ℕ) (s : LogicalFs D) (o : Option Fcb)
      → get path s.fcbs ≡ o
      → Room pid s.fcbs s.fds
      → Post (λ fd. Exclusive) (lock_fcb path pid (open_fcb path o) s)
  unfolding lock_fcb open_fcb new_fcb Post
  post_lock path pid s none e (w, room) =
      rw
        (insert-insert path (record (new_fcb path) { locked_by = some pid; open_count = 1 })
          (new_fcb path) s.fcbs)
        (Exclusive-claim s.fcbs s.fds pid path
          (record (new_fcb path) { locked_by = some pid; open_count = 1 }) e refl refl room w)
  post_lock path pid s (some f) e (w, room) =
      rw ((w.counted path f e).1) (Exclusive-write s.fcbs s.fds path f f e refl refl w)

  claim-Triple :
      (path : Bytes) (pid : ℕ) → Triple {D = D} (Room pid) (claim path pid) (λ fd. Exclusive)
  unfolding claim
  claim-Triple path pid = record { run = λ s h. post_lock path pid s (get path s.fcbs) refl h }

  drop_fcb_lem :
      (path : Bytes) (pid fd : ℕ) (s : LogicalFs D) (f : Fcb)
      → path_at s.fds pid fd ≡ some path
      → f.open_count ≡ 1
      → Exclusive s.fcbs s.fds
      → Post {A = Unit {0}}
          (λ a. Exclusive)
          (drop_fcb path pid (some f) (record s { fds = (remove_for s.fds pid fd).1 }), ok tt)
  unfolding drop_fcb Post
  drop_fcb_lem path pid fd s f h one w = rw one (Exclusive-remove s.fcbs s.fds pid fd path _ h w)

  post_close :
      (fd pid : ℕ) (s : LogicalFs D) (o : Option Bytes)
      → path_at s.fds pid fd ≡ o
      → Exclusive s.fcbs s.fds
      → Post
          (λ a. Exclusive)
          (elim o as (λ x. LogicalFs D × Result (Unit {0}) FsError) [
            | none ↦ (record s { fds = (remove_for s.fds pid fd).1 }, err not_open)
            | some path ↦ (release path pid (record s { fds = (remove_for s.fds pid fd).1 }), ok tt)
          ])
  unfolding release Post
  post_close fd pid s none e w = Exclusive-remove_none s.fcbs s.fds pid fd e w
  post_close fd pid s (some path) e w =
      let (f, at_f, mine) = w.owned pid fd path e in
      let one = (w.counted path f at_f).0 in rw at_f (drop_fcb_lem path pid fd s f e one w)

  pub close-Triple : (fd pid : ℕ) → Triple {D = D} Exclusive (close fd pid) (λ a. Exclusive)
  unfolding close path_at remove_for
  close-Triple fd pid = record { run = λ s w. post_close fd pid s (path_at s.fds pid fd) refl w }

  module _ (fat : Fat D) (lower : Bytes → Bytes) where
    pub read-Triple :
        (fd pid uid gid len : ℕ)
        → Triple Exclusive (read fat lower fd pid uid gid len) (λ a. Exclusive)
    unfolding read
    read-Triple fd pid uid gid len = Triple-bind (path_of-Triple fd pid) λ path.
        Triple-bind (free Quiet-state) λ s. Triple-bind (free (Quiet-require _)) λ a.
          Triple-bind (fcb_of-Triple path) λ f.
            Triple-bind (held path f (Quiet-ok_or _ _)) λ fat_path.
              Triple-bind (held path f Quiet-disk_mut) λ d.
                Triple-bind (held path f (Quiet-fail_if _ _)) λ b.
                  Triple-bind (held path f (Quiet-put_disk _)) λ c.
                    Triple-bind (held path f (Quiet-ok_or _ _)) λ bytes.
                      Triple-bind (write_fcb-Triple path f _ refl refl) λ e. free (Quiet-pure bytes)

    pub write-Triple :
        (fd pid uid gid : ℕ) (buf : Bytes)
        → Triple Exclusive (write fat lower fd pid uid gid buf) (λ a. Exclusive)
    unfolding write
    write-Triple fd pid uid gid buf = Triple-bind (path_of-Triple fd pid) λ path.
        Triple-bind (fcb_of-Triple path) λ f. Triple-bind (held path f (Quiet-fail_if _ _)) λ a.
          Triple-bind (held path f Quiet-state) λ s.
            Triple-bind (held path f (Quiet-require _)) λ b.
              Triple-bind (held path f (Quiet-ok_or _ _)) λ fat_path.
                Triple-bind (held path f Quiet-disk_mut) λ d.
                  Triple-bind (held path f (Quiet-fail_if _ _)) λ c.
                    Triple-bind (held path f (Quiet-put_disk _)) λ g.
                      Triple-bind (held path f (Quiet-fail_if _ _)) λ h.
                        Triple-bind (write_fcb-Triple path f _ refl refl)
                          λ i. free (Quiet-pure (length buf))

    pub mkdir-Triple : (path : Bytes) → Triple Exclusive (mkdir fat lower path) (λ a. Exclusive)
    unfolding mkdir
    mkdir-Triple path = Triple-bind (free Quiet-state) λ s.
        Triple-bind (free (Quiet-fail_if _ _)) λ a. Triple-bind (free (Quiet-ok_or _ _)) λ fat_path.
          Triple-bind (free Quiet-disk_mut)
            λ d. Triple-bind (free (Quiet-put_disk _)) λ b. free (Quiet-fail_if _ _)

    pub rename-Triple :
        (old new : Bytes) → Triple Exclusive (rename fat lower old new) (λ a. Exclusive)
    unfolding rename
    rename-Triple old new = Triple-bind (free Quiet-state) λ s.
        Triple-bind (free (Quiet-fail_if _ _)) λ a. Triple-bind (free (Quiet-fail_if _ _)) λ b.
          Triple-bind (free (Quiet-ok_or _ _)) λ old_fat.
            Triple-bind (free (Quiet-ok_or _ _)) λ new_fat.
              Triple-bind (free Quiet-disk_mut)
                λ d. Triple-bind (free (Quiet-put_disk _)) λ c. free (Quiet-fail_if _ _)

    pub open_path-Triple :
        (path : Bytes) (pid uid gid : ℕ)
        → Triple (Room pid) (open_path fat lower path pid uid gid) (λ fd. Exclusive)
    unfolding open_path
    open_path-Triple path pid uid gid = Triple-bind (roomy pid Quiet-state) λ s.
        Triple-bind (roomy pid (Quiet-fail_if _ _)) λ a.
          Triple-bind (roomy pid (Quiet-require _)) λ b.
            Triple-bind (roomy pid (Quiet-ok_or _ _)) λ fat_path.
              Triple-bind (roomy pid Quiet-disk_mut)
                λ d. Triple-bind (roomy pid (Quiet-fail_if _ _)) λ c. claim-Triple path pid

    pub create-Triple :
        (path : Bytes) (pid : ℕ) → Triple (Room pid) (create fat lower path pid) (λ fd. Exclusive)
    unfolding create
    create-Triple path pid = Triple-bind (roomy pid Quiet-state) λ s.
        Triple-bind (roomy pid (Quiet-fail_if _ _)) λ a.
          Triple-bind (roomy pid (Quiet-ok_or _ _)) λ fat_path.
            Triple-bind (roomy pid Quiet-disk_mut) λ d.
              Triple-bind (roomy pid (Quiet-put_disk _))
                λ b. Triple-bind (roomy pid (Quiet-fail_if _ _)) λ c. claim-Triple path pid
