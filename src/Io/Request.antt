-- ===== src/Io/Request.antt =====
-- kernel/src/io/scheduler.rs: requests for the disk.
use alaphi_os.Base.{ℕ, ◌+◌, ◌%◌, ◌^◌, Bool, Option, none, some, List, [], ◌∷◌}

pub record DiskRequest : Type 0 where
  pub lba : ℕ
  pub count : ℕ
  pub is_write : Bool

unfoldable pub last : {A : Type 0} → List A → Option A
last [] = none
last (x ∷ []) = some x
last (x ∷ y ∷ rest) = last (y ∷ rest)

unfoldable pub end_of : DiskRequest → ℕ
end_of r = (r.lba + r.count) % 2 ^ 64
