-- ===== src/Io/Crc.antt =====
-- kernel/src/io/crc.rs: the checksum of a sector, by a table of 256 entries.
use Prim.Native.Nat.{bit_and, bit_xor}
use alaphi_os.Base.{ℕ, zero, suc, ◌+◌, ◌/◌, ◌^◌, List, [], ◌∷◌, ◌==◌, if◌then◌else◌, get_or}
use alaphi_os.Base.Bits.{bit_not}
use alaphi_os.Base.Bytes.{Bytes}

abbrev pub crc32_poly : ℕ
crc32_poly = 3988292384

-- the loop over the eight bits of an entry
unfoldable pub entry_rounds : ℕ → ℕ → ℕ
entry_rounds zero crc = crc
entry_rounds (suc n) crc =
    entry_rounds n (if bit_and crc 1 == 0 then crc / 2 else bit_xor (crc / 2) crc32_poly)

-- `n` entries from the index `i` on
unfoldable pub table_from : ℕ → ℕ → List ℕ
table_from zero i = []
table_from (suc n) i = entry_rounds 8 i ∷ table_from n (i + 1)

unfoldable pub build_table : List ℕ
build_table = table_from 256 0

-- `(crc >> 8) ^ TABLE[((crc ^ b) & 0xFF)]`
unfoldable pub crc_step : ℕ → ℕ → ℕ
crc_step crc b = bit_xor (crc / 2 ^ 8) (get_or build_table (bit_and (bit_xor crc b) 255) 0)

unfoldable pub crc_rounds : ℕ → Bytes → ℕ
crc_rounds crc [] = crc
crc_rounds crc (b ∷ bytes) = crc_rounds (crc_step crc b) bytes

unfoldable pub crc32 : Bytes → ℕ
crc32 bytes = bit_not 32 (crc_rounds (bit_not 32 0) bytes)
