-- ===== src/Io/Tests.antt =====
-- Runs of the disk queues.
use alaphi_os.Base.{ℕ, ◌≡◌, ◌≤◌, refl, true, false, [], ◌∷◌, length, arith}
use alaphi_os.Io.Crc.{crc32, crc_rounds, crc_step, build_table, table_from, entry_rounds}
use alaphi_os.Io.Request.{DiskRequest, last, end_of}
use alaphi_os.Io.Cscan as Cscan
use alaphi_os.Io.Cscan.{CscanScheduler, insert_by_lba, sort_by_lba, split_at, head_after}
use alaphi_os.Io.Fcfs.{FcfsScheduler, joins, merge_one, merge_all, drain}
use mathlib.Core.List.{Perm}
use alaphi_os.Io.Cscan.Sweep.{Sweep, drain_sweeps}
use alaphi_os.Io.Fcfs.Merge.{Fits, sectors, drain_same_sectors}

abbrev read_at : ℕ → DiskRequest
read_at n = record { lba = n; count = 2; is_write = false }

abbrev write_at : ℕ → DiskRequest
write_at n = record { lba = n; count = 2; is_write = true }

abbrev waiting : CscanScheduler
waiting = record { pending = read_at 9 ∷ read_at 3 ∷ write_at 12 ∷ read_at 6 ∷ []; head = 5 }

-- The head stands after the last request served, here one below where it began.
drain_at_five :
    Cscan.drain waiting
    ≡ (read_at 6 ∷ read_at 9 ∷ write_at 12 ∷ read_at 3 ∷ [], record { pending = []; head = 5 })
unfolding Cscan.drain insert_by_lba sort_by_lba split_at head_after last end_of
drain_at_five = refl

abbrev writes : FcfsScheduler
writes = record { pending = write_at 4 ∷ write_at 6 ∷ read_at 8 ∷ write_at 10 ∷ write_at 12 ∷ [] }

merged_writes : (drain writes).0 ≡ (
    record { lba = 4; count = 4; is_write = true }
    ∷ read_at 8
    ∷ record { lba = 10; count = 4; is_write = true }
    ∷ [])
unfolding drain merge_all merge_one joins end_of
merged_writes = refl

drain_same_sectors_example :
    (sectors (drain writes).0 ≡ sectors writes.pending)
    × (length (drain writes).0 ≤ length writes.pending)
    × ((drain writes).1.pending ≡ [])
unfolding Fits
drain_same_sectors_example =
    drain_same_sectors writes
      (omega arith, (omega arith, (omega arith, (omega arith, (omega arith, tt)))))

drain_sweeps_example :
    Perm (Cscan.drain waiting).0 waiting.pending
    × ((Cscan.drain waiting).1.pending ≡ [])
    × Sweep waiting.head (Cscan.drain waiting).0
drain_sweeps_example = drain_sweeps waiting

crc32_check : crc32 (b'1' ∷ b'2' ∷ b'3' ∷ b'4' ∷ b'5' ∷ b'6' ∷ b'7' ∷ b'8' ∷ b'9' ∷ []) ≡ 3421780262
unfolding crc32 crc_rounds crc_step build_table table_from entry_rounds
crc32_check = refl
