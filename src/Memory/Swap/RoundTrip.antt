-- ===== src/Memory/Swap/RoundTrip.antt =====
-- kernel/src/memory/swap.rs: a page that is swapped out comes back.
use alaphi_os.Base.{
  ℕ, ◌+◌, ◌*◌, ◌≤◌, ◌<◌, ◌≡◌, ◌≢◌, ◌∙◌, ◌⊎◌, refl, ap, true, false, some, length, get_or, set,
  arith, inl, inr, Bool-cases, ltb, ltb→lt, ◌%◌, ◌^◌, replicate, length-replicate,
}
use alaphi_os.Base.Bytes.{Bytes}
use alaphi_os.Io.Crc.{crc32}
use alaphi_os.Io.Disk
use alaphi_os.Io.Disk.{RamDisk}
use alaphi_os.Memory.Swap
use alaphi_os.Memory.Swap.{
  SwapPartition, alloc_slot, swap_out, swap_out_to, written_out, swap_in, read_in, free_slot,
  write_sectors, read_sectors,
}
use alaphi_os.Memory.Swap.Sectors.{SwapDisk, write_sectors-Holds, read_sectors_same}
use alaphi_os.Memory.Swap.Slots.{alloc_slot_cases}

-- A partition of `pages` slots: eight sectors for each, and a cursor in range.
pub record IsPartition (s : SwapPartition) (pages : ℕ) : Type 0 where
  pub disk : SwapDisk s.disk (pages * 8)
  pub slots : length s.free ≡ pages
  pub in_range : s.cursor < pages

-- While a slot is free, `swap_out` of a page of 4096 bytes succeeds with a slot that was free, and
-- marks it taken. A later `swap_in` of that slot gives the page back, whatever the frame held, and
-- frees the slot; a `swap_in` of any other slot gives what it gave before.
pub swap_in-swap_out :
    (s : SwapPartition) (pages taken : ℕ) (page : Bytes)
    → IsPartition s pages
    → taken < pages
    → get_or s.free taken false ≡ true
    → length page ≡ 4096
    → (slot : ℕ) × (s' : SwapPartition) × (swap_out s page ≡ some (some slot, s'))
      × (get_or s.free slot false ≡ true)
      × (s'.free ≡ set s.free slot false)
      × ((old : Bytes) → length old ≡ 4096 → swap_in s' slot old ≡ some (page, free_slot s' slot))
      × ((other : ℕ) (old : Bytes)
          → other < pages
          → other ≢ slot
          → length old ≡ 4096
          → read_sectors 8 (other * 8) old s'.disk ≡ read_sectors 8 (other * 8) old s.disk)
unfolding swap_out swap_out_to written_out swap_in read_in
swap_in-swap_out s pages taken page p h free size =
    elim (alloc_slot_cases s (omega (arith, p.in_range, p.slots))) [
      | inr (_, none_free) ↦
          let bad = none_free taken (omega (arith, p.slots)) in absurd (clash free bad)
      | inl (slot, in_slots, was_free, e) ↦
          let s1 : SwapPartition = record s {
            free = set s.free slot false;
            cursor = (slot + 1) % length s.free;
          } in
          let (d', written, held) =
            write_sectors-Holds s.disk (pages * 8) 8 (slot * 8) page p.disk (omega (arith, p.slots))
              (size) in
          (
            slot,
            record s1 { disk = d' },
            ap (swap_out_to page) e ∙ ap (written_out s1 slot) written,
            was_free,
            refl,
            λ old size'. ap (read_in (record s1 { disk = d' }) slot) (held.back old size'),
            λ other old k apart size'.
                read_sectors_same s.disk d' 8 (other * 8) old
                  (λ j buf q r size''.
                    held.apart j buf (omega arith) (side other slot j apart q r) size'')
                  size',
          )
    ]
  where
    clash : get_or s.free taken false ≡ true → get_or s.free taken false ≡ false → ⊥
    clash e f = cc

    side :
        (other slot j : ℕ)
        → other ≢ slot
        → other * 8 ≤ j
        → j < other * 8 + 8
        → (j < slot * 8) ⊎ (slot * 8 + 8 ≤ j)
    side other slot j apart q r = elim (Bool-cases (ltb other slot)) [
      | inl e ↦ let below = ltb→lt other slot e in inl (omega arith)
      | inr e ↦ let above : slot < other = ground (arith, e, apart) in inr (omega arith)
    ]

-- `SwapPartition::new` is such a partition.
pub new-IsPartition :
    (pages : ℕ) → 0 < pages → pages * 4096 < 2 ^ 64 → IsPartition (Swap.new pages) pages
unfolding Swap.new Disk.new
new-IsPartition pages h small = record {
  disk = record {
    formatted = record {
      content = length-replicate (pages * 8 * 512) 0;
      size = refl;
      checksums = length-replicate (pages * 8) (crc32 (replicate 512 0));
      addressable = omega arith;
    };
    sector = refl;
  };
  slots = length-replicate pages true;
  in_range = h;
}
