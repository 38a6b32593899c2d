-- ===== src/Io/Fcfs/Merge.antt =====
-- kernel/src/io/scheduler.rs: merging keeps the sectors, their order and their direction.
use alaphi_os.Base.{
  ℕ, zero, suc, ◌+◌, ◌≤◌, ◌<◌, ◌%◌, ◌^◌, ◌≡◌, ◌∙◌, sym, ap, refl, Bool, true, List, [], ◌∷◌, ◌++◌,
  All, arith, Bool-cases, inl, inr, append-nil, append_assoc, length, ==_iff,
}
use alaphi_os.Io.Request.{DiskRequest, end_of}
use alaphi_os.Io.Fcfs.{FcfsScheduler, joins, merge_one, merge_all, drain}

-- The sectors that a request touches, in order, each with the direction.
unfoldable pub run_of : Bool → ℕ → ℕ → List (Bool × ℕ)
run_of w n zero = []
run_of w n (suc c) = (w, n) ∷ run_of w (n + 1) c

unfoldable pub sectors : List DiskRequest → List (Bool × ℕ)
sectors [] = []
sectors (r ∷ rs) = run_of r.is_write r.lba r.count ++ sectors rs

-- The end of the request is an address of 64 bits.
unfoldable pub Fits : DiskRequest → Type 0
Fits r = r.lba + r.count < 2 ^ 64

run_of_add : (w : Bool) (n a b : ℕ) → run_of w n (a + b) ≡ run_of w n a ++ run_of w (n + a) b
unfolding run_of
run_of_add w n zero b =
    let none : n + 0 ≡ n = omega arith in let same : 0 + b ≡ b = omega arith in rw (none, same) refl
run_of_add w n (suc a) b =
    let shift : n + suc a ≡ (n + 1) + a = omega arith in
    let grow : suc a + b ≡ suc (a + b) = omega arith in
    rw (shift, grow) (ap (λ t. (w, n) ∷ t) (run_of_add w (n + 1) a b))

joins-run :
    (l r : DiskRequest)
    → Fits l
    → Fits r
    → joins l r ≡ true
    → (((l.count + r.count) % 2 ^ 64) ≡ l.count + r.count)
      × (r.lba ≡ l.lba + l.count)
      × (r.is_write ≡ l.is_write)
unfolding Fits joins end_of
joins-run l r fl fr e =
    let at = ==_iff r.lba ((l.lba + l.count) % 2 ^ 64) in
    let joined : r.lba ≡ (l.lba + l.count) % 2 ^ 64 = ground arith in
    (omega arith, omega arith, ground arith)

Fits-joined :
    (l r : DiskRequest)
    → Fits r
    → r.lba ≡ l.lba + l.count
    → Fits (record l { count = l.count + r.count })
unfolding Fits
Fits-joined l r f at = omega arith

merge_one-sectors :
    (merged : List DiskRequest) (r : DiskRequest)
    → All Fits merged
    → Fits r
    → (sectors (merge_one merged r) ≡ sectors merged ++ run_of r.is_write r.lba r.count)
      × All Fits (merge_one merged r)
unfolding merge_one sectors
merge_one-sectors [] r a f = (append-nil (run_of r.is_write r.lba r.count), (f, tt))
merge_one-sectors (l ∷ []) r a f = elim (Bool-cases (joins l r)) [
  | inl e ↦
      let (sum, at, way) = joins-run l r a.0 f e in
      rw (e, sum, at, way)
        (
          rw
              (
                append-nil (run_of l.is_write l.lba (l.count + r.count)),
                append-nil (run_of l.is_write l.lba l.count),
              )
              (run_of_add l.is_write l.lba l.count r.count),
          (Fits-joined l r f at, tt),
        )
  | inr e ↦ rw e (
    rw (append-nil (run_of r.is_write r.lba r.count), append-nil (run_of l.is_write l.lba l.count))
        refl,
    (a.0, (f, tt)),
  )
]
merge_one-sectors (x ∷ y ∷ rest) r a f =
    let (same, fit) = merge_one-sectors (y ∷ rest) r a.1 f in
    (
      ap (λ t. run_of x.is_write x.lba x.count ++ t) same
          ∙ sym (
              append_assoc (run_of x.is_write x.lba x.count) (sectors (y ∷ rest))
                (run_of r.is_write r.lba r.count)),
      (a.0, fit),
    )

merge_all-sectors :
    (merged batch : List DiskRequest)
    → All Fits merged
    → All Fits batch
    → sectors (merge_all merged batch) ≡ sectors merged ++ sectors batch
unfolding merge_all sectors
merge_all-sectors merged [] a b = sym (append-nil (sectors merged))
merge_all-sectors merged (r ∷ rs) a b =
    let (same, fit) = merge_one-sectors merged r a b.0 in
    merge_all-sectors (merge_one merged r) rs fit b.1
    ∙ (rw same (append_assoc (sectors merged) _ _))

-- The least number of requests is not sought, but merging never makes more.
length-merge_one :
    (merged : List DiskRequest) (r : DiskRequest) → length (merge_one merged r) ≤ length merged + 1
unfolding merge_one
length-merge_one [] r = omega arith
length-merge_one (l ∷ []) r = ground arith
length-merge_one (x ∷ y ∷ rest) r = omega (arith, length-merge_one (y ∷ rest) r)

length-merge_all :
    (merged batch : List DiskRequest)
    → length (merge_all merged batch) ≤ length merged + length batch
unfolding merge_all
length-merge_all merged [] = omega arith
length-merge_all merged (r ∷ rs) =
    omega (arith, length-merge_all (merge_one merged r) rs, length-merge_one merged r)

-- When no request runs past the 64-bit address space, `FcfsScheduler::drain` leaves no request
-- pending, and what it returns touches exactly the sectors of the pending requests, in the order of
-- submission and in the same direction, with no more requests than were pending.
pub drain_same_sectors :
    (s : FcfsScheduler)
    → All Fits s.pending
    → (sectors (drain s).0 ≡ sectors s.pending)
      × (length (drain s).0 ≤ length s.pending)
      × ((drain s).1.pending ≡ [])
unfolding drain sectors
drain_same_sectors s fit =
    (merge_all-sectors [] s.pending tt fit, omega (arith, length-merge_all [] s.pending), refl)
