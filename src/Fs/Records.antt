-- ===== src/Fs/Records.antt =====
-- kernel/src/fs/system_domain.rs: the records of `auth.db` and `perms.db`. A file is its bytes; a
-- record cut off at the end of a file is the only read error. `core::str::from_utf8` is the parameter
-- `is_utf8`.
pub mod Slices
pub mod RoundTrip
pub mod Databases
mod Tests
use alaphi_os.Base.{
  ℕ, zero, suc, ◌+◌, ◌*◌, ◌-◌, ◌/◌, ◌%◌, ◌≤◌, Bool, true, false, List, [], ◌∷◌, ◌++◌, ◌==◌, ltb,
  min, length, take, drop, get_or, replicate, if◌then◌else◌,
}
use alaphi_os.Base.Map.{Map, insert, nat_key}
use alaphi_os.Base.Bytes.{Bytes, bytes_key}
use alaphi_os.Fs.Overlay.{AuthEntry, AuthDb, PermEntry, PermsDb, insert_auth}

abbrev pub path_max : ℕ
path_max = 64

abbrev pub auth_record_size : ℕ
auth_record_size = 53

abbrev pub perms_record_size : ℕ
perms_record_size = 76

abbrev pub status_clean : ℕ
status_clean = 0

abbrev pub status_dirty : ℕ
status_dirty = 1

-- `u32::to_le_bytes`
unfoldable pub to_le_bytes : ℕ → Bytes
to_le_bytes n = n % 256 ∷ n / 256 % 256 ∷ n / 65536 % 256 ∷ n / 16777216 % 256 ∷ []

-- `u32::from_le_bytes`
unfoldable pub from_le_bytes : Bytes → ℕ
from_le_bytes b = get_or b 0 0 + get_or b 1 0 * 256 + get_or b 2 0 * 65536 + get_or b 3 0 * 16777216

-- `&buf[from..from + n]`
unfoldable pub slice : ℕ → ℕ → Bytes → Bytes
slice from n buf = take n (drop from buf)

unfoldable pub encode_auth_record : ℕ → AuthEntry → Bytes
encode_auth_record status entry = status ∷ (to_le_bytes entry.uid ++ (entry.salt ++ entry.hash))

unfoldable pub decode_auth_record : Bytes → ℕ × AuthEntry
decode_auth_record buf = (
  get_or buf 0 0,
  record { uid = from_le_bytes (slice 1 4 buf); salt = slice 5 16 buf; hash = slice 21 32 buf },
)

-- The path, cut off and filled up with zeros to 64 bytes.
unfoldable pub path_field : Bytes → Bytes
path_field path = let n = min (length path) path_max in take n path ++ replicate (path_max - n) 0

unfoldable pub encode_perms_record : ℕ → Bytes → PermEntry → Bytes
encode_perms_record status path entry =
    status
    ∷ (path_field path
        ++ (to_le_bytes entry.uid
            ++ (to_le_bytes entry.gid ++ entry.owner_rwx ∷ entry.group_rwx ∷ entry.world_rwx ∷ [])))

-- The bytes before the first zero.
unfoldable pub until_zero : Bytes → Bytes
until_zero [] = []
until_zero (b ∷ bs) = let rest = until_zero bs in if b == 0 then [] else b ∷ rest

module _ (is_utf8 : Bytes → Bool) where
  unfoldable pub decode_perms_record : Bytes → ℕ × Bytes × PermEntry
  decode_perms_record buf =
      let raw = until_zero (slice 1 path_max buf) in
      (
        get_or buf 0 0,
        if is_utf8 raw then raw else [],
        record {
          uid = from_le_bytes (slice 65 4 buf);
          gid = from_le_bytes (slice 69 4 buf);
          owner_rwx = get_or buf 73 0;
          group_rwx = get_or buf 74 0;
          world_rwx = get_or buf 75 0;
        },
      )

-- `if status == STATUS_DIRTY`: a record in flux is left out and reported.
unfoldable pub settle : ℕ × AuthEntry → (AuthDb → AuthDb × Bool) → AuthDb → AuthDb × Bool
settle (status, entry) next db =
    if status == status_dirty then ((next db).0, true) else next (insert_auth entry db)

-- One round of `load_auth_db`, on what was read and the rounds that follow. A record that is short
-- stops the loop.
unfoldable pub load_record : Bytes → (AuthDb → AuthDb × Bool) → AuthDb → AuthDb × Bool
load_record buf next db =
    if ltb (length buf) auth_record_size
    then (db, true)
    else settle (decode_auth_record buf) next db

-- Each round that goes on reads at least one byte, so the length of the file is fuel enough.
unfoldable pub load_auth : ℕ → Bytes → AuthDb → AuthDb × Bool
load_auth fuel [] db = (db, false)
load_auth zero (b ∷ file) db = (db, true)
load_auth (suc fuel) (b ∷ file) db =
    load_record (take auth_record_size (b ∷ file))
      (load_auth fuel (drop auth_record_size (b ∷ file))) db

unfoldable pub load_auth_db : Bytes → AuthDb → AuthDb × Bool
load_auth_db file db = load_auth (length file) file db

-- The records that `repair_auth_db` writes.
unfoldable pub repaired_auth : List (ℕ × AuthEntry) → Bytes
repaired_auth [] = []
repaired_auth ((uid, entry) ∷ db) = encode_auth_record status_clean entry ++ repaired_auth db
