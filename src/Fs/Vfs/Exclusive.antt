-- ===== src/Fs/Vfs/Exclusive.antt =====
-- kernel/src/fs/vfs.rs, fcb.rs, fd_table.rs: the exclusive lock an open file carries, as a relation
-- of the descriptors with the control blocks.
use alaphi_os.Base.{
  ℕ, ◌+◌, ◌^◌, ◌≡◌, sym, ◌∙◌, subst, Bool-cases, inl, inr, ◌&&◌, ◌<◌, refl, ap, true, false, none,
  some, ◌==◌, ==_iff, if◌then◌else◌, arith, is_some,
}
use alaphi_os.Base.Map.{
  get-insert_here, get-insert_apart, get-remove_apart, get, insert, remove, get-insert, get-remove,
  nat_key,
}
use alaphi_os.Base.Bytes.{Bytes, bytes_eq, bytes_eq_iff, bytes_eq_self, bytes_key}
use alaphi_os.Fs.Tables.{Fcb, FcbTable, FdRegistry, alloc_for, get_for, remove_for}
use alaphi_os.Fs.Vfs.Descriptors.{
  path_at, next_of, path_at-get_for, next_of-get_for, next_of-alloc_for, path_at-remove_for,
  next_of-remove_for, alloc_for-cases,
}

-- Every descriptor has a block, every block is locked by a process and counts one descriptor, no
-- two descriptors share a path, and numbers are given out upwards.
pub record Exclusive (fcbs : FcbTable) (fds : FdRegistry) : Type 0 where
  pub owned :
      (pid fd : ℕ) (p : Bytes)
      → path_at fds pid fd ≡ some p
      → (f : Fcb) × (get p fcbs ≡ some f) × (f.locked_by ≡ some pid)
  pub counted :
      (p : Bytes) (f : Fcb)
      → get p fcbs ≡ some f
      → (f.open_count ≡ 1) × (is_some f.locked_by ≡ true)
  pub single :
      (pid fd fd' : ℕ) (p : Bytes)
      → path_at fds pid fd ≡ some p
      → path_at fds pid fd' ≡ some p
      → fd ≡ fd'
  pub below : (pid fd : ℕ) (p : Bytes) → path_at fds pid fd ≡ some p → fd < next_of fds pid

-- Looking a descriptor up changes nothing but the table that is made for a new process.
pub Exclusive-get_for :
    (fcbs : FcbTable) (fds : FdRegistry) (pid fd : ℕ)
    → Exclusive fcbs fds
    → Exclusive fcbs (get_for fds pid fd).1
Exclusive-get_for fcbs fds pid fd w = record {
  owned = λ q x p h. w.owned q x p (sym (path_at-get_for fds pid fd q x) ∙ h);
  counted = w.counted;
  single = λ q x x' p h h'.
      w.single q x x' p (sym (path_at-get_for fds pid fd q x) ∙ h)
        (sym (path_at-get_for fds pid fd q x') ∙ h');
  below = λ q x p h.
      rw (next_of-get_for fds pid fd q) (w.below q x p (sym (path_at-get_for fds pid fd q x) ∙ h));
}

-- A write to a block that keeps its lock and its count.
pub Exclusive-write :
    (fcbs : FcbTable) (fds : FdRegistry) (path : Bytes) (f f' : Fcb)
    → get path fcbs ≡ some f
    → f'.locked_by ≡ f.locked_by
    → f'.open_count ≡ f.open_count
    → Exclusive fcbs fds
    → Exclusive (insert path f' fcbs) fds
Exclusive-write fcbs fds path f f' found lock count w = record {
  owned = λ q x p h.
      let (g, at_g, mine) = w.owned q x p h in
      elim (Bool-cases (bytes_eq p path)) [
        | inl here ↦
            let same = (bytes_eq_iff p path).0 here in
            (f', get-insert_here path p f' fcbs here, grind arith)
        | inr apart ↦ (g, get-insert_apart path p f' fcbs apart ∙ at_g, mine)
      ];
  counted = λ p g at_g.
      let was = w.counted p g in
      let here = w.counted path f found in let at' = get-insert path p f' fcbs in ground arith;
  single = w.single;
  below = w.below;
}

-- A descriptor with a block names another path than one without.
Exclusive-apart :
    (fcbs : FcbTable) (fds : FdRegistry) (path : Bytes)
    → Exclusive fcbs fds
    → get path fcbs ≡ none
    → (q x : ℕ) (p : Bytes) → path_at fds q x ≡ some p
    → bytes_eq p path ≡ false
Exclusive-apart fcbs fds path w free q x p h =
    let (g, at_g, mine) = w.owned q x p h in
    elim (Bool-cases (bytes_eq p path)) [
      | inl here ↦ let same = (bytes_eq_iff p path).0 here in ground arith
      | inr apart ↦ apart
    ]

-- A new descriptor for a path that has no block.
pub Exclusive-claim :
    (fcbs : FcbTable) (fds : FdRegistry) (pid : ℕ) (path : Bytes) (f : Fcb)
    → get path fcbs ≡ none
    → f.locked_by ≡ some pid
    → f.open_count ≡ 1
    → next_of fds pid + 1 < 2 ^ 64
    → Exclusive fcbs fds
    → Exclusive (insert path f fcbs) (alloc_for fds pid path).1
Exclusive-claim fcbs fds pid path f free lock count room w = record {
  owned = λ q x p h. elim (alloc_for-cases fds pid path q x p h) [
    | inl (eq, ex, ep) ↦
        (f, rw ep (get-insert_here path path f fcbs (bytes_eq_self path)), lock ∙ rw eq refl)
    | inr old ↦
        let (g, at_g, mine) = w.owned q x p old in
        let apart = Exclusive-apart fcbs fds path w free q x p old in
        (g, get-insert_apart path p f fcbs apart ∙ at_g, mine)
  ];
  counted =
      λ p g at_g. let was = w.counted p g in let at' = get-insert path p f fcbs in ground arith;
  single = λ q x y p h h'.
      let cx = alloc_for-cases fds pid path q x p h in
      let cy = alloc_for-cases fds pid path q y p h' in
      let ax = Exclusive-apart fcbs fds path w free q x p in
      let ay = Exclusive-apart fcbs fds path w free q y p in
      let self = bytes_eq_self path in let was = w.single q x y p in ground arith;
  below = λ q x p h.
      let cx = alloc_for-cases fds pid path q x p h in
      let was = w.below q x p in rw (next_of-alloc_for fds pid path q) ground (arith, ==_iff q pid);
}

-- Two descriptors that stand for one path are one.
pub Exclusive-one :
    (fcbs : FcbTable) (fds : FdRegistry) (pid fd q x : ℕ) (p : Bytes)
    → Exclusive fcbs fds
    → path_at fds pid fd ≡ some p
    → path_at fds q x ≡ some p
    → (q ≡ pid) × (x ≡ fd)
Exclusive-one fcbs fds pid fd q x p w h h' =
    let (f, at_f, by_pid) = w.owned pid fd p h in
    let (g, at_g, by_q) = w.owned q x p h' in
    let fg : f ≡ g = cc in
    let same : q ≡ pid = grind arith in
    (same, w.single pid x fd p (subst (λ z. path_at fds z x ≡ some p) same h') h)

apart_paths :
    (fcbs : FcbTable) (fds : FdRegistry) (pid fd : ℕ) (path : Bytes) (q x : ℕ) (p : Bytes)
    → path_at fds pid fd ≡ some path
    → Exclusive fcbs fds
    → path_at (remove_for fds pid fd).1 q x
      ≡ (if q == pid && x == fd then none else path_at fds q x)
    → path_at (remove_for fds pid fd).1 q x ≡ some p
    → bytes_eq p path ≡ false
apart_paths fcbs fds pid fd path q x p mine w gone h = elim (Bool-cases (bytes_eq p path)) [
  | inr apart ↦ apart
  | inl here ↦
      let same = (bytes_eq_iff p path).0 here in
      let old : path_at fds q x ≡ some p = ground arith in
      let (eq, ex) = Exclusive-one fcbs fds pid fd q x path w mine (old ∙ ap some same) in
      ground (arith, ==_iff q pid, ==_iff x fd)
]

-- A descriptor that goes takes its block with it.
pub Exclusive-remove :
    (fcbs : FcbTable) (fds : FdRegistry) (pid fd : ℕ) (path : Bytes) (f' : Fcb)
    → path_at fds pid fd ≡ some path
    → Exclusive fcbs fds
    → Exclusive (remove path (insert path f' fcbs)) (remove_for fds pid fd).1
Exclusive-remove fcbs fds pid fd path f' mine w = record {
  owned = λ q x p h.
      let gone = path_at-remove_for fds pid fd q x in
      let old : path_at fds q x ≡ some p = ground arith in
      let (g, at_g, by_q) = w.owned q x p old in
      let apart = apart_paths fcbs fds pid fd path q x p mine w gone h in
      (
        g,
        get-remove_apart path p (insert path f' fcbs) apart
            ∙ get-insert_apart path p f' fcbs apart
            ∙ at_g,
        by_q,
      );
  counted = λ p g at_g.
      let was = w.counted p g in
      let at' = get-insert path p f' fcbs in
      let at'' = get-remove path p (insert path f' fcbs) in ground arith;
  single = λ q x y p h h'.
      let gx = path_at-remove_for fds pid fd q x in
      let gy = path_at-remove_for fds pid fd q y in let was = w.single q x y p in ground arith;
  below = λ q x p h.
      let gone = path_at-remove_for fds pid fd q x in
      let was = w.below q x p in rw (next_of-remove_for fds pid fd q) ground arith;
}

-- A number that stands for nothing.
pub Exclusive-remove_none :
    (fcbs : FcbTable) (fds : FdRegistry) (pid fd : ℕ)
    → path_at fds pid fd ≡ none
    → Exclusive fcbs fds
    → Exclusive fcbs (remove_for fds pid fd).1
Exclusive-remove_none fcbs fds pid fd free w =
    let same : (q x : ℕ) → path_at fds q x ≡ path_at (remove_for fds pid fd).1 q x = λ q x.
      let gone = path_at-remove_for fds pid fd q x in ground (arith, ==_iff q pid, ==_iff x fd) in
    record {
      owned = λ q x p h. w.owned q x p (same q x ∙ h);
      counted = w.counted;
      single = λ q x y p h h'. w.single q x y p (same q x ∙ h) (same q y ∙ h');
      below = λ q x p h. rw (next_of-remove_for fds pid fd q) (w.below q x p (same q x ∙ h));
    }
