-- ===== src/Memory/Swap/Sectors.antt =====
-- kernel/src/memory/swap.rs: the eight sectors of a page, written and read back.
use alaphi_os.Base.{
  ℕ, zero, suc, ◌+◌, ◌*◌, ◌≤◌, ◌<◌, ◌≡◌, ◌∙◌, ◌⊎◌, refl, ap, sym, some, [], ◌∷◌, ok, length, take,
  drop, arith, ==_refl, ne→==, inl, inr, length-take, length-drop, take-append-drop, if◌then◌else◌,
}
use alaphi_os.Base.Bytes.{Bytes}
use alaphi_os.Io.Disk.{RamDisk, read_sector}
use alaphi_os.Io.Disk.ReadWrite.{Formatted, read_sector-write_sector}
use alaphi_os.Memory.Swap.{write_sectors, read_sectors, then_write, then_read}

-- A disk of sectors of 512 bytes.
pub record SwapDisk (d : RamDisk) (count : ℕ) : Type 0 where
  pub formatted : Formatted d count
  pub sector : d.sector_size ≡ 512

-- `d'` holds the bytes in the sectors `lba` to `lba + n`, and reads as `d` in all others.
pub record Holds (d d' : RamDisk) (count lba n : ℕ) (bytes : Bytes) : Type 0 where
  pub disk : SwapDisk d' count
  pub back : (old : Bytes) → length old ≡ n * 512 → read_sectors n lba old d' ≡ some bytes
  pub apart :
      (j : ℕ) (old : Bytes)
      → j < count
      → (j < lba) ⊎ (lba + n ≤ j)
      → length old ≡ 512
      → read_sector d' j old ≡ read_sector d j old

pub write_sectors-Holds :
    (d : RamDisk) (count n lba : ℕ) (bytes : Bytes)
    → SwapDisk d count
    → lba + n ≤ count
    → length bytes ≡ n * 512
    → (d' : RamDisk) × (write_sectors n lba bytes d ≡ some (d', ok tt))
      × Holds d d' count lba n bytes
unfolding write_sectors read_sectors then_write then_read
write_sectors-Holds d count zero lba [] s h size =
    (d, refl, record { disk = s; back = λ old e. refl; apart = λ j old k out e. refl })
write_sectors-Holds d count zero lba (b ∷ bytes) s h size = absurd (omega arith)
write_sectors-Holds d count (suc n) lba bytes s h size =
    let first = take 512 bytes in
    let rest = drop 512 bytes in
    let first_size : length first ≡ 512 = omega (arith, length-take 512 bytes) in
    let (d1, e, f1, same, seen) =
      read_sector-write_sector d count lba first s.formatted (omega arith)
        (first_size ∙ sym s.sector) in
    let (d', e', held) =
      write_sectors-Holds d1 count n (lba + 1) rest
        (record { formatted = f1; sector = same ∙ s.sector }) (omega arith)
        (omega (arith, length-drop 512 bytes)) in
    (
      d',
      ap (then_write (write_sectors n (lba + 1) rest)) e ∙ e',
      record {
        disk = held.disk;
        back = λ old size'.
            ap (λ o. then_read o (read_sector d' lba (take 512 old)))
              (held.back (drop 512 old) (omega (arith, length-drop 512 old)))
            ∙ ap (then_read (some rest)) (
                held.apart lba (take 512 old) (omega arith) (inl (omega arith))
                  (omega (arith, length-take 512 old))
                ∙ seen lba (take 512 old) (omega arith)
                    (omega (arith, length-take 512 old, s.sector))
                ∙ ap (λ b. if b then some (first, ok tt) else read_sector d lba (take 512 old))
                    (==_refl lba))
            ∙ ap some (take-append-drop 512 bytes);
        apart = λ j old k out size'.
            held.apart j old k (elim out [ inl p ↦ inl (omega arith) | inr p ↦ inr (omega arith) ])
              size'
            ∙ seen j old k (size' ∙ sym s.sector)
            ∙ ap (λ b. if b then some (first, ok tt) else read_sector d j old)
                (ne→== j lba
                  (elim out [ inl p ↦ λ same. omega arith | inr p ↦ λ same. omega arith ]));
      },
    )

-- Sectors that read alike one by one read alike in a row.
pub read_sectors_same :
    (d d' : RamDisk) (n lba : ℕ) (old : Bytes)
    → ((j : ℕ) (buf : Bytes)
        → lba ≤ j
        → j < lba + n
        → length buf ≡ 512
        → read_sector d' j buf ≡ read_sector d j buf)
    → length old ≡ n * 512
    → read_sectors n lba old d' ≡ read_sectors n lba old d
unfolding read_sectors
read_sectors_same d d' zero lba old h size = refl
read_sectors_same d d' (suc n) lba old h size =
    ap (λ o. then_read o (read_sector d' lba (take 512 old)))
      (read_sectors_same d d' n (lba + 1) (drop 512 old)
        (λ j buf p q size'. h j buf (omega arith) (omega arith) size')
        (omega (arith, length-drop 512 old)))
    ∙ ap (then_read (read_sectors n (lba + 1) (drop 512 old) d))
        (h lba (take 512 old) (omega arith) (omega arith) (omega (arith, length-take 512 old)))
