-- ===== src/Fs/Records/Databases.antt =====
-- kernel/src/fs/system_domain.rs: the password database that a repair writes and a boot reads.
use alaphi_os.Base.{
  ℕ, zero, suc, ◌+◌, ◌≤◌, ◌≡◌, ◌∙◌, sym, ap, refl, Bool, true, false, List, [], ◌∷◌, ◌++◌, ◌==◌,
  ltb, length, drop, if◌then◌else◌, arith, take_left, drop_left, All, length-append,
}
use alaphi_os.Base.Bytes.{Bytes}
use alaphi_os.Fs.Overlay.{AuthEntry, AuthDb, insert_auth}
use alaphi_os.Fs.Records.{
  auth_record_size, status_clean, status_dirty, encode_auth_record, settle, to_le_bytes,
  load_record, load_auth, load_auth_db, repaired_auth,
}
use alaphi_os.Fs.Records.RoundTrip.{IsAuth, decode-encode_auth_record}
use alaphi_os.Fs.Records.Slices.{length-to_le_bytes}

length-encode_auth_record :
    (status : ℕ) (e : AuthEntry) → IsAuth e → length (encode_auth_record status e) ≡ 53
unfolding encode_auth_record
length-encode_auth_record status e sizes = omega (
  arith,
  length-append (to_le_bytes e.uid) (e.salt ++ e.hash),
  length-append e.salt e.hash,
  length-to_le_bytes e.uid,
  sizes.salt_size,
  sizes.hash_size,
)

-- A round on a whole record.
load_record-encode_auth_record :
    (status : ℕ) (e : AuthEntry) (next : AuthDb → AuthDb × Bool) (db : AuthDb)
    → IsAuth e
    → load_record (encode_auth_record status e) next db
      ≡ (if status == status_dirty then ((next db).0, true) else next (insert_auth e db))
unfolding load_record settle
load_record-encode_auth_record status e next db sizes =
    let whole : ltb (length (encode_auth_record status e)) auth_record_size ≡ false =
      ground (arith, length-encode_auth_record status e sizes) in
    rw (whole, decode-encode_auth_record status e sizes) refl

load_auth-append :
    (fuel status : ℕ) (e : AuthEntry) (file : Bytes) (db : AuthDb)
    → IsAuth e
    → load_auth (suc fuel) (encode_auth_record status e ++ file) db ≡ (
        if status == status_dirty
        then ((load_auth fuel file db).0, true)
        else load_auth fuel file (insert_auth e db))
unfolding load_auth encode_auth_record
load_auth-append fuel status e file db sizes =
    let buf = encode_auth_record status e in
    let size = sym (length-encode_auth_record status e sizes) in
    ap (λ x. load_record x (load_auth fuel (drop auth_record_size (buf ++ file))) db)
      (take_left buf file auth_record_size size)
    ∙ ap (λ x. load_record buf (load_auth fuel x) db) (drop_left buf file auth_record_size size)
    ∙ load_record-encode_auth_record status e (load_auth fuel file) db sizes

-- The entries written one after the other.
unfoldable pub insert_all : List (ℕ × AuthEntry) → AuthDb → AuthDb
insert_all [] db = db
insert_all ((uid, entry) ∷ es) db = insert_all es (insert_auth entry db)

load_nothing : (fuel : ℕ) (db : AuthDb) → load_auth fuel [] db ≡ (db, false)
unfolding load_auth
load_nothing zero db = refl
load_nothing (suc fuel) db = refl

load_auth-repaired_auth :
    (es : List (ℕ × AuthEntry)) (fuel : ℕ) (db : AuthDb)
    → All (λ p. IsAuth p.1) es
    → length (repaired_auth es) ≤ fuel
    → load_auth fuel (repaired_auth es) db ≡ (insert_all es db, false)
unfolding repaired_auth insert_all
load_auth-repaired_auth [] fuel db sizes enough = load_nothing fuel db
load_auth-repaired_auth ((uid, e) ∷ es) zero db sizes enough = absurd (
    omega (
      arith,
      length-append (encode_auth_record status_clean e) (repaired_auth es),
      length-encode_auth_record status_clean e sizes.0,
    ))
load_auth-repaired_auth ((uid, e) ∷ es) (suc fuel) db sizes enough =
    load_auth-append fuel status_clean e (repaired_auth es) db sizes.0
    ∙ load_auth-repaired_auth es fuel (insert_auth e db) sizes.1 (
        omega (
          arith,
          length-append (encode_auth_record status_clean e) (repaired_auth es),
          length-encode_auth_record status_clean e sizes.0,
        ))

-- Booting from the file that `repair_auth_db` wrote finds no record in flux and inserts every
-- entry of the repaired database, in its order, and nothing else, if the entries have the sizes of
-- the record's fields.
pub load_auth_db-repaired_auth :
    (es : List (ℕ × AuthEntry)) (db : AuthDb)
    → All (λ p. IsAuth p.1) es
    → load_auth_db (repaired_auth es) db ≡ (insert_all es db, false)
unfolding load_auth_db
load_auth_db-repaired_auth es db sizes =
    load_auth-repaired_auth es (length (repaired_auth es)) db sizes (omega arith)

-- A record whose status says that it was in flux is left out of the database, the whole records
-- after it are loaded as if it were not there, and the load reports it.
pub load_auth_db-dirty :
    (e : AuthEntry) (es : List (ℕ × AuthEntry)) (db : AuthDb)
    → IsAuth e
    → All (λ p. IsAuth p.1) es
    → load_auth_db (encode_auth_record status_dirty e ++ repaired_auth es) db
      ≡ (insert_all es db, true)
unfolding load_auth_db
load_auth_db-dirty e es db whole sizes =
    let file = repaired_auth es in
    let fuel : length (encode_auth_record status_dirty e ++ file) ≡ suc (52 + length file) = omega (
      arith,
      length-append (encode_auth_record status_dirty e) file,
      length-encode_auth_record status_dirty e whole,
    ) in
    ap (λ n. load_auth n (encode_auth_record status_dirty e ++ file) db) fuel
    ∙ load_auth-append (52 + length file) status_dirty e file db whole
    ∙ ap (λ x. (x.0, true)) (load_auth-repaired_auth es (52 + length file) db sizes (omega arith))
