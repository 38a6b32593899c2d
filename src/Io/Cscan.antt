-- ===== src/Io/Cscan.antt =====
-- kernel/src/io/scheduler.rs, `CscanScheduler`. `sort_by_key` of the standard library is a stable
-- sort, here by insertion.
pub mod Sweep
use alaphi_os.Base.{
  ℕ, suc, ◌+◌, ◌%◌, ◌^◌, Bool, true, false, not, ◌&&◌, Option, none, some, List, [], ◌∷◌, ◌++◌, ltb,
  ◌==◌, if◌then◌else◌, take, drop,
}
use alaphi_os.Io.Request.{DiskRequest, last, end_of}

pub record CscanScheduler : Type 0 where
  pub pending : List DiskRequest
  pub head : ℕ

-- A request goes before the first one at the same address or a higher one; the requests are inserted
-- from the last to the first, so equal addresses stay in order.
unfoldable pub insert_by_lba : DiskRequest → List DiskRequest → List DiskRequest
insert_by_lba r [] = r ∷ []
insert_by_lba r (x ∷ xs) =
    let rest = insert_by_lba r xs in if ltb x.lba r.lba then x ∷ rest else r ∷ x ∷ xs

unfoldable pub sort_by_lba : List DiskRequest → List DiskRequest
sort_by_lba [] = []
sort_by_lba (r ∷ rs) = insert_by_lba r (sort_by_lba rs)

-- `position(|r| r.lba >= h).unwrap_or(len)`
unfoldable pub split_at : ℕ → List DiskRequest → ℕ
split_at h [] = 0
split_at h (r ∷ rs) = let rest = split_at h rs in if ltb r.lba h then suc rest else 0

unfoldable pub head_after : ℕ → Option DiskRequest → ℕ
head_after h none = h
head_after h (some r) = end_of r

unfoldable pub new : CscanScheduler
new = record { pending = []; head = 0 }

unfoldable pub submit : CscanScheduler → DiskRequest → CscanScheduler
submit s req = record s { pending = s.pending ++ req ∷ [] }

-- The requests in the order in which they are served, and the scheduler left.
unfoldable pub drain : CscanScheduler → List DiskRequest × CscanScheduler
drain s =
    let sorted = sort_by_lba s.pending in
    let split = split_at s.head sorted in
    let served = drop split sorted ++ take split sorted in
    (served, record { pending = []; head = head_after s.head (last served) })
