-- ===== src/Fs/Records/Tests.antt =====
-- Runs of the records of the system domain.
use alaphi_os.Base.{◌≡◌, refl, Bool, true, false, [], ◌∷◌, arith, replicate}
use alaphi_os.Base.Map.{nat_key}
use alaphi_os.Base.Bytes.{Bytes}
use alaphi_os.Fs.Overlay.{AuthEntry, PermEntry}
use alaphi_os.Fs.Records.{encode_perms_record, decode_perms_record, load_auth_db, repaired_auth}
use alaphi_os.Fs.Records.RoundTrip.{IsAuth, decode-encode_perms_record}
use alaphi_os.Fs.Records.Databases.{insert_all, load_auth_db-repaired_auth}

abbrev root_entry : AuthEntry
root_entry = record { uid = 70000; salt = replicate 16 1; hash = replicate 32 2 }

root_entry-IsAuth : IsAuth root_entry
root_entry-IsAuth = record { uid_bits = omega arith; salt_size = refl; hash_size = refl }

load_auth_db-repaired_auth_example :
    load_auth_db (repaired_auth ((70000, root_entry) ∷ [])) []
    ≡ (insert_all ((70000, root_entry) ∷ []) [], false)
load_auth_db-repaired_auth_example =
    load_auth_db-repaired_auth ((70000, root_entry) ∷ []) [] (root_entry-IsAuth, tt)

abbrev any_text : Bytes → Bool
any_text b = true

abbrev open_entry : PermEntry
open_entry = record { uid = 5; gid = 300; owner_rwx = 6; group_rwx = 4; world_rwx = 0 }

decode-encode_perms_record_example :
    decode_perms_record any_text (encode_perms_record 0 (b'/' ∷ b'a' ∷ []) open_entry)
    ≡ (0, b'/' ∷ b'a' ∷ [], open_entry)
decode-encode_perms_record_example =
    decode-encode_perms_record any_text 0 (b'/' ∷ b'a' ∷ []) open_entry (record {
      uid_bits = omega arith;
      gid_bits = omega arith;
      short = omega arith;
      no_zero = ((λ e. omega arith), ((λ e. omega arith), tt));
      text = refl;
    })
