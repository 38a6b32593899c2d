-- ===== src/Io/Disk.antt =====
-- kernel/src/io/disk.rs: the disk in memory. The frames that hold it are mapped in one piece, so its
-- content is a sequence of bytes. `none` is a panic (an index out of range).
pub mod Slices
pub mod ReadWrite
use alaphi_os.Base.{
  ℕ, zero, suc, ◌+◌, ◌-◌, ◌*◌, ◌/◌, ◌%◌, ◌^◌, Bool, Option, none, some, List, [], ◌∷◌, ◌++◌, Result,
  ok, err, length, take, drop, set, replicate, get_elem?, min, ltb, ◌==◌, if◌then◌else◌,
}
use alaphi_os.Base.Bytes.{Bytes}
use alaphi_os.Io.Crc.{crc32}

pub data DiskError : Type 0 where
  out_of_bounds io_error crc_mismatch : DiskError

pub record RamDisk : Type 0 where
  pub bytes : Bytes
  pub byte_len : ℕ
  pub sector_size : ℕ
  pub cursor : ℕ
  pub crcs : List ℕ

unfoldable pub new : ℕ → ℕ → RamDisk
new sector_count sector_size = record {
  bytes = replicate (sector_count * sector_size) 0;
  byte_len = sector_count * sector_size;
  sector_size = sector_size;
  cursor = 0;
  crcs = replicate sector_count (crc32 (replicate sector_size 0));
}

unfoldable pub sector_count : RamDisk → ℕ
sector_count d = d.byte_len / d.sector_size

-- `(lba as usize) * self.sector_size`
unfoldable pub start_of : RamDisk → ℕ → ℕ
start_of d lba = lba * d.sector_size % 2 ^ 64

unfoldable pub is_out : RamDisk → ℕ → Bool
is_out d lba = ltb d.byte_len (start_of d lba + d.sector_size)

-- A copy over a part of a sequence of bytes.
unfoldable pub overwrite : Bytes → ℕ → Bytes → Bytes
overwrite bytes start part = take start bytes ++ part ++ drop (start + length part) bytes

unfoldable pub sector_at : RamDisk → ℕ → Bytes
sector_at d lba = take d.sector_size (drop (start_of d lba) d.bytes)

-- The buffer after the call and the result.
abbrev pub Read : Type 0
Read = Bytes × Result (Unit {0}) DiskError

-- the comparison with the checksum kept
unfoldable pub checked : Bytes → Option ℕ → Option Read
checked buf none = none
checked buf (some crc) = some (buf, if crc32 buf == crc then ok tt else err crc_mismatch)

unfoldable pub read_sector : RamDisk → ℕ → Bytes → Option Read
read_sector d lba buf =
    if is_out d lba
    then some (buf, err out_of_bounds)
    else checked (overwrite buf 0 (sector_at d lba)) (get_elem? d.crcs lba)

-- the write of the checksum and of the bytes
unfoldable pub stored :
    RamDisk → ℕ → Bytes → Option ℕ → Option (RamDisk × Result (Unit {0}) DiskError)
stored d lba buf none = none
stored d lba buf (some _) = some (
  record d {
    crcs = set d.crcs lba (crc32 buf);
    bytes = overwrite d.bytes (start_of d lba) (take d.sector_size buf);
  },
  ok tt,
)

unfoldable pub write_sector : RamDisk → ℕ → Bytes → Option (RamDisk × Result (Unit {0}) DiskError)
write_sector d lba buf =
    if is_out d lba then some (d, err out_of_bounds) else stored d lba buf (get_elem? d.crcs lba)

-- `BlockDevice`: from the cursor on, without checksums. The bytes read, which the buffer takes.
unfoldable pub read : RamDisk → ℕ → Bytes × RamDisk
read d len =
    let n = min len (d.byte_len - d.cursor) in
    if n == 0
    then ([], d)
    else (take n (drop d.cursor d.bytes), record d { cursor = (d.cursor + n) % 2 ^ 64 })

unfoldable pub write : RamDisk → Bytes → ℕ × RamDisk
write d buf =
    let n = min (length buf) (d.byte_len - d.cursor) in
    if n == 0 then (0, d) else (
      n,
      record d {
        bytes = overwrite d.bytes d.cursor (take n buf);
        cursor = (d.cursor + n) % 2 ^ 64;
      },
    )

unfoldable pub seek : RamDisk → ℕ → RamDisk
seek d offset = record d { cursor = offset }
