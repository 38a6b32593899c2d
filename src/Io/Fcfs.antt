-- ===== src/Io/Fcfs.antt =====
-- kernel/src/io/scheduler.rs, `FcfsScheduler`.
pub mod Merge
use alaphi_os.Base.{
  ℕ, ◌+◌, ◌%◌, ◌^◌, Bool, true, false, not, ◌&&◌, Option, none, some, List, [], ◌∷◌, ◌++◌, ltb,
  ◌==◌, if◌then◌else◌, take, drop,
}
use alaphi_os.Io.Request.{DiskRequest, last, end_of}

pub record FcfsScheduler : Type 0 where
  pub pending : List DiskRequest

-- `last.is_write && req.lba == last.lba + last.count`, for a request that is a write
unfoldable pub joins : DiskRequest → DiskRequest → Bool
joins last req = req.is_write && (last.is_write && req.lba == end_of last)

-- One round of the loop, on the requests merged so far.
unfoldable pub merge_one : List DiskRequest → DiskRequest → List DiskRequest
merge_one [] req = req ∷ []
merge_one (l ∷ []) req =
    if joins l req then record l { count = (l.count + req.count) % 2 ^ 64 } ∷ [] else l ∷ req ∷ []
merge_one (x ∷ y ∷ rest) req = x ∷ merge_one (y ∷ rest) req

unfoldable pub merge_all : List DiskRequest → List DiskRequest → List DiskRequest
merge_all merged [] = merged
merge_all merged (req ∷ batch) = merge_all (merge_one merged req) batch

unfoldable pub new : FcfsScheduler
new = record { pending = [] }

unfoldable pub submit : FcfsScheduler → DiskRequest → FcfsScheduler
submit s req = record { pending = s.pending ++ req ∷ [] }

unfoldable pub drain : FcfsScheduler → List DiskRequest × FcfsScheduler
drain s = (merge_all [] s.pending, record { pending = [] })
