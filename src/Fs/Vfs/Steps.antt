-- ===== src/Fs/Vfs/Steps.antt =====
-- kernel/src/fs/vfs.rs: what holds of the blocks and the descriptors after a method, on success and
-- after an error, put together along the `?` operator.
use alaphi_os.Base.{ap, ◌≡◌, refl, Bool, true, false, Option, none, some, Result, ok, err}
use alaphi_os.Base.Map.{nat_key}
use alaphi_os.Base.Bytes.{bytes_key}
use alaphi_os.Fs.Tables.{FcbTable, FdRegistry}
use alaphi_os.Fs.Volume.{FsError, LogicalFs, M, not_mounted, ◌>>=◌, fail_if, ok_or, state, pure}
use alaphi_os.Fs.Vfs.{require, disk_mut, put_disk}
use alaphi_os.Fs.Vfs.Exclusive.{Exclusive}

-- A statement about the two tables.
abbrev pub Tables : Type 1
Tables = FcbTable → FdRegistry → Type 0

module _ {D : Type 0} where
  -- The locks after an error, `Q` of the value after a success.
  unfoldable pub Post : {A : Type 0} → (A → Tables) → LogicalFs D × Result A FsError → Type 0
  Post Q (s, ok a) = Q a s.fcbs s.fds
  Post Q (s, err e) = Exclusive s.fcbs s.fds

  pub record Triple {A : Type 0} (P : Tables) (m : M D A) (Q : A → Tables) : Type 0 where
    pub run : (s : LogicalFs D) → P s.fcbs s.fds → Post Q (m s)

  -- The tables are as they were.
  pub record Quiet {A : Type 0} (m : M D A) : Type 0 where
    pub same : (s : LogicalFs D) → ((m s).0.fcbs ≡ s.fcbs) × ((m s).0.fds ≡ s.fds)

  after_bind :
      {A B : Type 0} (Q : A → Tables) (R : B → Tables) (f : A → M D B)
      (x : LogicalFs D × Result A FsError)
      → Post Q x
      → ((a : A) → Triple (Q a) (f a) R)
      → Post R (elim x.1 as (λ r. LogicalFs D × Result B FsError) [
        | ok a ↦ f a x.0
        | err e ↦ (x.0, err e)
      ])
  unfolding Post
  after_bind Q R f (t, ok a) p k = (k a).run t p
  after_bind Q R f (t, err e) p k = p

  pub Triple-bind :
      {A B : Type 0} {P : Tables} {Q : A → Tables} {R : B → Tables} {m : M D A} {f : A → M D B}
      → Triple P m Q
      → ((a : A) → Triple (Q a) (f a) R)
      → Triple P (m >>= f) R
  unfolding ◌>>=◌
  Triple-bind {Q = Q} {R = R} {m = m} {f = f} p k = record {
    run = λ s h. after_bind Q R f (m s) (p.run s h) k;
  }

  pub bind-ok :
      {A B : Type 0} (m : M D A) (f : A → M D B) (s t : LogicalFs D) (a : A)
      → m s ≡ (t, ok a)
      → (m >>= f) s ≡ f a t
  unfolding ◌>>=◌
  bind-ok {B = B} m f s t a e =
      ap
        (λ x. elim x.1 as (λ y. LogicalFs D × Result B FsError) [
          | ok c ↦ f c x.0
          | err d ↦ (x.0, err d)
        ])
        e

  pub bind-err :
      {A B : Type 0} (m : M D A) (f : A → M D B) (s t : LogicalFs D) (r : FsError)
      → m s ≡ (t, err r)
      → (m >>= f) s ≡ (t, err r)
  unfolding ◌>>=◌
  bind-err {B = B} m f s t r e =
      ap
        (λ x. elim x.1 as (λ y. LogicalFs D × Result B FsError) [
          | ok c ↦ f c x.0
          | err d ↦ (x.0, err d)
        ])
        e

  quiet_after :
      {A : Type 0} (P : Tables) (s : LogicalFs D) (x : LogicalFs D × Result A FsError)
      → x.0.fcbs ≡ s.fcbs
      → x.0.fds ≡ s.fds
      → ((fcbs : FcbTable) (fds : FdRegistry) → P fcbs fds → Exclusive fcbs fds)
      → P s.fcbs s.fds
      → Post (λ a. P) x
  unfolding Post
  quiet_after P s (t, ok a) e e' k p = rw (e, e') p
  quiet_after P s (t, err r) e e' k p = k t.fcbs t.fds (rw (e, e') p)

  pub Triple-Quiet :
      {A : Type 0} {P : Tables} {m : M D A}
      → ((fcbs : FcbTable) (fds : FdRegistry) → P fcbs fds → Exclusive fcbs fds)
      → Quiet m
      → Triple P m (λ a. P)
  Triple-Quiet {P = P} {m = m} k q = record {
    run = λ s p. quiet_after P s (m s) (q.same s).0 (q.same s).1 k p;
  }

  pub Quiet-ok_or : {A : Type 0} (o : Option A) (e : FsError) → Quiet (ok_or o e)
  unfolding ok_or
  Quiet-ok_or none e = record { same = λ s. (refl, refl) }
  Quiet-ok_or (some a) e = record { same = λ s. (refl, refl) }

  pub Quiet-fail_if : (b : Bool) (e : FsError) → Quiet (fail_if b e)
  unfolding fail_if
  Quiet-fail_if true e = record { same = λ s. (refl, refl) }
  Quiet-fail_if false e = record { same = λ s. (refl, refl) }

  pub Quiet-state : Quiet state
  unfolding state
  Quiet-state = record { same = λ s. (refl, refl) }

  pub Quiet-pure : {A : Type 0} (a : A) → Quiet (pure a)
  unfolding pure
  Quiet-pure a = record { same = λ s. (refl, refl) }

  pub Quiet-require : {A : Type 0} (r : Result A FsError) → Quiet (require r)
  unfolding require
  Quiet-require r = record { same = λ s. (refl, refl) }

  pub Quiet-disk_mut : Quiet disk_mut
  unfolding disk_mut
  Quiet-disk_mut = record { same = λ s. (Quiet-ok_or s.disk not_mounted).same s }

  pub Quiet-put_disk : (d : D) → Quiet (put_disk d)
  unfolding put_disk
  Quiet-put_disk d = record { same = λ s. (refl, refl) }
