-- ===== src/Io/Disk/ReadWrite.antt =====
-- kernel/src/io/disk.rs: what a write of a sector does to the sectors read after it.
use native.Mathlib.Nat.{mul-le-mul_right, suc-mul}
use alaphi_os.Base.{
  ℕ, suc, ◌+◌, ◌*◌, ◌^◌, ◌≤◌, ◌<◌, ◌≡◌, ◌≢◌, ◌∙◌, refl, ap, sym, false, some, [], ok, length, take,
  drop, set, get_elem?, arith, ltb, ◌==◌, ==_refl, ==_iff, inl, inr, Bool-cases, ltb→lt,
  if◌then◌else◌, length-set, length-take, take_left, append-nil,
}
use alaphi_os.Base.Bytes.{Bytes}
use alaphi_os.Io.Crc.{crc32}
use alaphi_os.Io.Disk.{
  RamDisk, start_of, is_out, overwrite, sector_at, checked, read_sector, stored, write_sector,
}
use alaphi_os.Io.Disk.Slices.{
  length-overwrite, overwrite_here, overwrite_before, overwrite_after, overwrite_whole,
  get_elem?-some, get_elem?-set_self, get_elem?-set_ne,
}

-- A disk of `count` sectors that fits the address space.
pub record Formatted (d : RamDisk) (count : ℕ) : Type 0 where
  pub content : length d.bytes ≡ d.byte_len
  pub size : d.byte_len ≡ count * d.sector_size
  pub checksums : length d.crcs ≡ count
  pub addressable : d.byte_len < 2 ^ 64

module _ (d : RamDisk) (count : ℕ) (f : Formatted d count) where
  in_range : (lba : ℕ) → lba < count → lba * d.sector_size + d.sector_size ≤ d.byte_len
  in_range lba h = omega (
    arith,
    f.size,
    suc-mul lba d.sector_size,
    mul-le-mul_right {m = suc lba} {n = count} d.sector_size h,
  )

  pub start_of-eq : (lba : ℕ) → lba < count → start_of d lba ≡ lba * d.sector_size
  unfolding start_of
  start_of-eq lba h = omega (arith, in_range lba h, f.addressable)

  pub start_fits : (lba : ℕ) → lba < count → start_of d lba + d.sector_size ≤ length d.bytes
  start_fits lba h = omega (arith, in_range lba h, start_of-eq lba h, f.content)

  pub not_out : (lba : ℕ) → lba < count → is_out d lba ≡ false
  unfolding is_out
  not_out lba h = ground (arith, start_fits lba h, f.content)

  -- the disk after a write of a sector
  abbrev pub rewritten : ℕ → Bytes → RamDisk
  rewritten lba buf = record d {
    crcs = set d.crcs lba (crc32 buf);
    bytes = overwrite d.bytes (start_of d lba) (take d.sector_size buf);
  }

  pub write_sector-ok :
      (lba : ℕ) (buf : Bytes)
      → lba < count
      → write_sector d lba buf ≡ some (rewritten lba buf, ok tt)
  unfolding write_sector stored
  write_sector-ok lba buf h =
      let (c, e) = get_elem?-some d.crcs lba (omega (arith, f.checksums)) in
      rw (not_out lba h) (ap (stored d lba buf) e)

  take_whole : (buf : Bytes) → length buf ≡ d.sector_size → take d.sector_size buf ≡ buf
  take_whole buf h =
      ap (take d.sector_size) (sym (append-nil buf)) ∙ take_left buf [] d.sector_size (sym h)

  length-whole :
      (buf : Bytes) → length buf ≡ d.sector_size → length (take d.sector_size buf) ≡ d.sector_size
  length-whole buf h = omega (arith, length-take d.sector_size buf)

  pub rewritten-Formatted :
      (lba : ℕ) (buf : Bytes)
      → lba < count
      → length buf ≡ d.sector_size
      → Formatted (rewritten lba buf) count
  rewritten-Formatted lba buf h size = record {
    content =
        length-overwrite d.bytes (start_of d lba) (take d.sector_size buf)
          (omega (arith, start_fits lba h, length-take d.sector_size buf))
        ∙ f.content;
    size = f.size;
    checksums = length-set d.crcs lba (crc32 buf) ∙ f.checksums;
    addressable = f.addressable;
  }

  pub sector_here :
      (lba : ℕ) (buf : Bytes)
      → lba < count
      → length buf ≡ d.sector_size
      → sector_at (rewritten lba buf) lba ≡ buf
  unfolding sector_at start_of
  sector_here lba buf h size =
      ap
        (λ n.
          take n
            (drop (start_of d lba) (overwrite d.bytes (start_of d lba) (take d.sector_size buf))))
        (sym (length-whole buf size))
      ∙ overwrite_here d.bytes (start_of d lba) (take d.sector_size buf)
          (omega (arith, start_fits lba h))
      ∙ take_whole buf size

  pub sector_apart :
      (lba other : ℕ) (buf : Bytes)
      → lba < count
      → other < count
      → other ≢ lba
      → length buf ≡ d.sector_size
      → sector_at (rewritten lba buf) other ≡ sector_at d other
  unfolding sector_at start_of
  sector_apart lba other buf h k apart size =
      let whole = length-whole buf size in
      let here = start_of-eq lba h in
      let there = start_of-eq other k in
      elim (Bool-cases (ltb other lba)) [
        | inl e ↦
            overwrite_before d.bytes (start_of d lba) (take d.sector_size buf) (start_of d other)
              d.sector_size
              (omega (
                arith,
                here,
                there,
                suc-mul other d.sector_size,
                mul-le-mul_right {m = suc other} {n = lba} d.sector_size (ltb→lt other lba e),
              ))
              (omega (arith, start_fits lba h))
        | inr e ↦
            overwrite_after d.bytes (start_of d lba) (take d.sector_size buf) (start_of d other)
              d.sector_size
              (omega (
                arith,
                here,
                there,
                whole,
                suc-mul lba d.sector_size,
                mul-le-mul_right {m = suc lba} {n = other} d.sector_size (ground (arith, e, apart)),
              ))
              (omega (arith, start_fits lba h))
      ]

  reads :
      (other : ℕ) (old : Bytes)
      → other < count
      → read_sector d other old
        ≡ checked (overwrite old 0 (sector_at d other)) (get_elem? d.crcs other)
  unfolding read_sector
  reads other old k = rw (not_out other k) refl

-- On a disk of `count` sectors whose size fits in 64 bits, a write of a whole sector succeeds and
-- leaves such a disk. A read of the same sector then succeeds and gives the bytes written; a read of any
-- other sector gives what it gave before, an error of its checksum included.
pub read_sector-write_sector :
    (d : RamDisk) (count lba : ℕ) (buf : Bytes)
    → Formatted d count
    → lba < count
    → length buf ≡ d.sector_size
    → (d' : RamDisk) × (write_sector d lba buf ≡ some (d', ok tt))
      × Formatted d' count
      × (d'.sector_size ≡ d.sector_size)
      × ((other : ℕ) (old : Bytes)
          → other < count
          → length old ≡ d.sector_size
          → read_sector d' other old
            ≡ (if other == lba then some (buf, ok tt) else read_sector d other old))
unfolding checked
read_sector-write_sector d count lba buf f h size = (
  d',
  write_sector-ok d count f lba buf h,
  f',
  refl,
  λ other old k size'. reads d' count f' other old k ∙ seen other old k size',
)
  where
    d' : RamDisk
    d' = rewritten d count f lba buf

    f' : Formatted d' count
    f' = rewritten-Formatted d count f lba buf h size

    apart : (other : ℕ) → (other == lba) ≡ false → other ≢ lba
    apart other e same = let g = (==_iff other lba).1 same in cc

    seen :
        (other : ℕ) (old : Bytes)
        → other < count
        → length old ≡ d.sector_size
        → checked (overwrite old 0 (sector_at d' other)) (get_elem? d'.crcs other)
          ≡ (if other == lba then some (buf, ok tt) else read_sector d other old)
    seen other old k size' = elim (Bool-cases (other == lba)) [
      | inl e ↦
          let same : other ≡ lba = (==_iff other lba).0 e in
          rw
            (
              e,
              same,
              sector_here d count f lba buf h size,
              overwrite_whole old buf (size ∙ sym size'),
              get_elem?-set_self d.crcs lba (crc32 buf) (omega (arith, f.checksums)),
            )
            (rw (==_refl (crc32 buf)) refl)
      | inr e ↦
          rw
            (
              e,
              sector_apart d count f lba other buf h k (apart other e) size,
              get_elem?-set_ne d.crcs lba other (crc32 buf) (λ same. apart other e (sym same)),
            )
            (sym (reads d count f other old k))
    ]
